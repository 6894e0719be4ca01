-- ===== src/Prelude/Maps.antt =====
-- `Map<string, V>`: the keys in the order of insertion, and the value of each.
use Prim.Native.String.{String}
use mathlib.Core.Bool.{Bool, not}
use mathlib.Core.Option.{Option, none, some}
use mathlib.Core.List.{List, [], ◌∷◌, ◌++◌}
use agent_metrics.Prelude.Tests.{if◌then◌else◌, is_some}
use agent_metrics.Prelude.Lists.{filter}
use agent_metrics.Prelude.Texts.{◌=s◌, delete}

pub record JsMap (V : Type 0) : Type 0 where
  pub keys : List String
  pub get : String → Option V

module _ {V : Type 0} where
  abbrev pub empty : JsMap V
  empty = record { keys = []; get = λ k. none }

  abbrev pub has : JsMap V → String → Bool
  has m k = is_some (m.get k)

  abbrev pub put : JsMap V → String → V → JsMap V
  put m k v = record {
    keys = if has m k then m.keys else m.keys ++ k ∷ [];
    get = λ j. if k =s j then some v else m.get j;
  }

  abbrev pub remove : JsMap V → String → JsMap V
  remove m k = record { keys = delete m.keys k; get = λ j. if k =s j then none else m.get j }

  -- A loop that writes every value in place.
  abbrev pub for_each : JsMap V → (V → V) → JsMap V
  for_each m f = record {
    keys = m.keys;
    get = λ j. elim (m.get j) [ none ↦ none | some v ↦ some (f v) ];
  }

  -- A loop that deletes the keys that a test picks.
  abbrev pub remove_where : JsMap V → (String → Bool) → JsMap V
  remove_where m gone = record {
    keys = filter (λ j. not (gone j)) m.keys;
    get = λ j. if gone j then none else m.get j;
  }

  -- The values at the keys given: those of `[...map.values()]` at `m.keys`.
  abbrev pub values_at : List String → JsMap V → List V
  values_at [] m = []
  values_at (k ∷ ks) m =
      let rest = values_at ks m in elim (m.get k) [ none ↦ rest | some v ↦ v ∷ rest ]

  abbrev pub values : JsMap V → List V
  values m = values_at m.keys m
