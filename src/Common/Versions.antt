-- ===== src/Common/Versions.antt =====
-- The version order of the last-writer-wins registers: by timestamp, a tie broken by the node.
use Prim.Native.Nat.{ℕ}
use Prim.Native.String.{String}
use mathlib.Core.Path.{◌≡◌}
use mathlib.Core.Bool.{Bool, true, false}
use native.Mathlib.Omega.{arith}
use toll_mesh_store.Common.Tests.{ltb, ◌==◌, if◌then◌else◌}
use toll_mesh_store.Common.Text.{
  str_ltb, str_ltb_irrefl, str_ltb_asym, str_ltb_total, str_ltb_trans,
}

abbrev pub Version : Type 0
Version = ℕ × String

unfoldable pub version_ltb : Version → Version → Bool
version_ltb (s, m) (t, n) = if s == t then str_ltb m n else ltb s t

pub version_ltb_irrefl : (a : Version) → version_ltb a a ≡ false
unfolding version_ltb
version_ltb_irrefl (s, m) = ground (arith, str_ltb_irrefl m)

pub version_ltb_asym : (a b : Version) → version_ltb a b ≡ true → version_ltb b a ≡ false
unfolding version_ltb
version_ltb_asym (s, m) (t, n) h = ground (arith, str_ltb_asym m n)

pub version_ltb_total : (a b : Version) → version_ltb a b ≡ false → version_ltb b a ≡ false → a ≡ b
unfolding version_ltb
version_ltb_total (s, m) (t, n) p q = ground (arith, str_ltb_total m n)

pub version_ltb_trans :
    (a b c : Version) → version_ltb a b ≡ true → version_ltb b c ≡ true → version_ltb a c ≡ true
unfolding version_ltb
version_ltb_trans (s, l) (t, m) (u, n) p q = ground (arith, str_ltb_trans l m n)

-- Not below is a transitive relation too.
pub version_ltb-false_trans :
    (a b c : Version) → version_ltb a b ≡ false → version_ltb b c ≡ false → version_ltb a c ≡ false
version_ltb-false_trans a b c p q = ground (
  arith,
  version_ltb_trans a c b,
  version_ltb_total a b,
  version_ltb_asym a c,
  version_ltb_total b c,
  version_ltb_trans b a c,
)
