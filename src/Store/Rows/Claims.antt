-- ===== src/Store/Rows/Claims.antt =====
-- A row that an update has closed stays closed while its table keeps its rows.
use flexi.Prelude.{◌<◌, String, ◌==◌, ◌≡◌, Bool, false, ◌&&◌, List, [], ◌∷◌, arith, eq_iff}
use flexi.Store.Rows.{count}
use flexi.Store.Rows.Grows.{Grows}
use flexi.Store.Rows.Unique.{IsUnique, count-Lacks}

module _ {ℓ} {A : Type ℓ} {R : A → A → Type 0} (key : A → String) (live : A → Bool)
    (same_key : (x y : A) → R x y → key y ≡ key x)
    (stays : (x y : A) → R x y → live x ≡ false → live y ≡ false) where
  -- Of a key that some row has, no row is live later if none is now.
  pub still_none_live :
      (k : String) (xs ys : List A)
      → Grows R xs ys
      → IsUnique key ys
      → 0 < count (λ x. key x == k) xs
      → count (λ x. key x == k && live x) xs ≡ 0
      → count (λ x. key x == k && live x) ys ≡ 0
  unfolding count
  still_none_live k [] ys g u some_row none_live = absurd (omega arith)
  still_none_live k (x ∷ xs) [] g u some_row none_live = absurd g
  still_none_live k (x ∷ xs) (y ∷ ys) (later, g) (lacks, u) some_row none_live = ground (
    arith,
    same_key x y later,
    stays x y later,
    eq_iff (key x) k,
    count-Lacks key (key y) live ys lacks,
    still_none_live k xs ys g u,
  )
