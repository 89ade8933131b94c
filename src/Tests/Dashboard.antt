-- ===== src/Tests/Dashboard.antt =====
-- The dashboard at concrete inputs.
use split_proxy.Base.{◌≡◌, ◌↔◌, refl, false, not, some, none, [], ◌∷◌, filter, All, arith}
use native.Mathlib.Nat.{le_refl}
use split_proxy.Text.{codes}
use split_proxy.Api.{GroupItem}
use split_proxy.Home
use split_proxy.Home.Attention.{
  attention-calm_iff, groups_with_problems-is_healthy, IsWell, IsOnline,
}
use split_proxy.Home.Figures.{rows, AreFigures, IsAvailability, figures-bounded}
use split_proxy.Tests.Data.{a_worker, b_worker}

abbrev a_group : GroupItem
a_group = record {
  id = 1;
  group_name = codes "a";
  workers = 2;
  online = 1;
  offline = 1;
  created_at = 0;
  updated_at = 0;
}

abbrev b_group : GroupItem
b_group = record {
  id = 2;
  group_name = codes "b";
  workers = 3;
  online = 3;
  offline = 0;
  created_at = 0;
  updated_at = 0;
}

abbrev pub a_home : Home.HomePage
a_home = record Home.initial {
  groups = a_group ∷ b_group ∷ [];
  workers = a_worker ∷ b_worker ∷ [];
  worker_count = 2;
  loading = false;
}

abbrev pub a_config : Home.ConfigContext
a_config = record { config = none; loading = false }

attention-calm_iff_example :
    (Home.attention a_config a_home ≡ Home.filled (Home.no_problems ∷ [])) ↔ (
      (Home.page_loading a_config a_home ≡ false)
      × (All IsOnline a_home.workers × All IsWell a_home.groups))
attention-calm_iff_example = attention-calm_iff a_config a_home

groups_with_problems-is_healthy_example :
    Home.groups_with_problems (a_group ∷ b_group ∷ [])
    ≡ filter (λ g. not (Home.is_healthy g)) (a_group ∷ b_group ∷ [])
groups_with_problems-is_healthy_example =
    groups_with_problems-is_healthy (a_group ∷ b_group ∷ []) (omega arith)

abbrev an_availability : Home.Availability
an_availability = record { online = 1; offline = 1; availability = 50 }

an_availability-shown : Home.availability_card a_config a_home ≡ some an_availability
unfolding Home.availability_card Home.page_loading Home.online_workers Home.offline_workers
    Home.percent Home.Doubles.ratio Home.Doubles.hundredfold Home.Doubles.round Home.Doubles.nearest
    Home.Doubles.places Home.Doubles.excess
an_availability-shown = refl

-- 29 / 200 * 100 is 14.499999999999998 in doubles.
percent_rounded : Home.percent 29 200 ≡ 14
unfolding Home.percent Home.Doubles.ratio Home.Doubles.hundredfold Home.Doubles.round
    Home.Doubles.nearest Home.Doubles.places Home.Doubles.excess
percent_rounded = refl

figures-bounded_example :
    AreFigures (rows (Home.worker_groups a_config a_home))
    × IsAvailability a_home (Home.availability_card a_config a_home)
figures-bounded_example = figures-bounded a_config a_home (omega arith) (le_refl 2)
