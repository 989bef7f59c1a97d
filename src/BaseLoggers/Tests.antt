-- ===== src/BaseLoggers/Tests.antt =====
-- base.go: the theorems about base loggers at concrete lists.
use xm.Base.{◌+◌, ◌≡◌, refl, some, [], ◌∷◌, ◌++◌, length, arith}
use xm.BaseLoggers.{Loggers, list, without_base}
use xm.BaseLoggers.Without.{IsInside, without_base_takes_two, without_base_last}

abbrev two : Loggers
two = record { array = 1 ∷ 2 ∷ []; len = 2; removed = []; added = [] }

two-IsInside : IsInside 1 two
two-IsInside = record {
  before = [];
  between = [];
  final = 2;
  array = refl;
  len = refl;
  others = (tt, tt, refl);
}

without_base_takes_two_example :
    (u : Loggers) × (without_base 1 two ≡ some u)
    × (length (list u) + 2 ≡ length (list two))
    × (u.removed ≡ (two.removed ++ 1 ∷ []) ++ 1 ∷ [])
without_base_takes_two_example = without_base_takes_two 1 two two-IsInside

without_base_last_example :
    (u : Loggers) × (without_base 2 two ≡ some u)
    × (list u ≡ 1 ∷ [])
    × (u.removed ≡ two.removed ++ 2 ∷ [])
without_base_last_example = without_base_last 2 (1 ∷ []) two refl refl (ground arith)
