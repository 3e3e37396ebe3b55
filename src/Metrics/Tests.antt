-- ===== src/Metrics/Tests.antt =====
-- The window of samples, on a ring of two slots.
use toll_mesh_store.Common.{◌≡◌, arith, length, [], ◌∷◌}
use toll_mesh_store.Metrics.{LatencyRing, add}
use toll_mesh_store.Metrics.Window.{IsValid, window, push_bounded, window-add}

abbrev ring : LatencyRing
ring = record { samples = 7 ∷ 8 ∷ []; cursor = 1; count = 2 }

ring-IsValid : IsValid ring
ring-IsValid = record {
  in_range = omega arith;
  fits = omega arith;
  filling = λ h. ground (arith, h);
}

window-add_example : window (add ring 9) ≡ push_bounded (length ring.samples) (window ring) 9
window-add_example = window-add ring 9 ring-IsValid
