-- ===== src/Diff/Myers/Script.antt =====
-- What an edit script means: the edits go through both files line by line, from a position to
-- another, and keep only equal lines.
use gitflare.Prelude.{
  ℕ, suc, ◌+◌, ◌≤◌, ◌<◌, ◌≡◌, refl, sym, subst, List, [], ◌∷◌, ◌++◌, length, Text, arith,
}
use gitflare.Diff.Myers.{Edit, equal, insert, delete, inserts, deletes}
use gitflare.Diff.Myers.Diagonals.{Match}

abbrev pub Script : List Text → List Text → ℕ → ℕ → List Edit → ℕ → ℕ → Type 0
Script old new x y [] x' y' = (x ≡ x') × (y ≡ y')
Script old new x y (equal i j ∷ edits) x' y' =
    (i ≡ x) × (j ≡ y) × Match old new x y × Script old new (suc x) (suc y) edits x' y'
Script old new x y (insert j ∷ edits) x' y' =
    (j ≡ y) × (y < length new) × Script old new x (suc y) edits x' y'
Script old new x y (delete i ∷ edits) x' y' =
    (i ≡ x) × (x < length old) × Script old new (suc x) y edits x' y'

-- The number of lines that a script inserts or deletes.
abbrev pub changes : List Edit → ℕ
changes [] = 0
changes (equal i j ∷ edits) = changes edits
changes (insert j ∷ edits) = suc (changes edits)
changes (delete i ∷ edits) = suc (changes edits)

module _ (old new : List Text) where
  pub Script-append :
      (x y x' y' x'' y'' : ℕ) (es fs : List Edit)
      → Script old new x y es x' y'
      → Script old new x' y' fs x'' y''
      → Script old new x y (es ++ fs) x'' y''
  Script-append x y x' y' x'' y'' [] fs (p, q) k =
      subst (λ x. Script old new x y fs x'' y'') (sym p)
        (subst (λ y. Script old new x' y fs x'' y'') (sym q) k)
  Script-append x y x' y' x'' y'' (equal i j ∷ es) fs (p, q, m, h) k =
      (p, q, m, Script-append (suc x) (suc y) x' y' x'' y'' es fs h k)
  Script-append x y x' y' x'' y'' (insert j ∷ es) fs (p, q, h) k =
      (p, q, Script-append x (suc y) x' y' x'' y'' es fs h k)
  Script-append x y x' y' x'' y'' (delete i ∷ es) fs (p, q, h) k =
      (p, q, Script-append (suc x) y x' y' x'' y'' es fs h k)

  pub Script-inserts :
      (x y : ℕ) (lines : List Text)
      → y + length lines ≤ length new
      → Script old new x y (inserts y lines) x (y + length lines)
  Script-inserts x y [] h = (refl, omega arith)
  Script-inserts x y (l ∷ lines) h =
      let e : y + suc (length lines) ≡ suc y + length lines = omega arith in
      (refl, omega arith, rw e (Script-inserts x (suc y) lines (omega arith)))

  pub Script-deletes :
      (x y : ℕ) (lines : List Text)
      → x + length lines ≤ length old
      → Script old new x y (deletes x lines) (x + length lines) y
  Script-deletes x y [] h = (omega arith, refl)
  Script-deletes x y (l ∷ lines) h =
      let e : x + suc (length lines) ≡ suc x + length lines = omega arith in
      (refl, omega arith, rw e (Script-deletes (suc x) y lines (omega arith)))

pub changes-append : (es fs : List Edit) → changes (es ++ fs) ≡ changes es + changes fs
changes-append [] fs = omega arith
changes-append (equal i j ∷ es) fs = changes-append es fs
changes-append (insert j ∷ es) fs = omega (arith, changes-append es fs)
changes-append (delete i ∷ es) fs = omega (arith, changes-append es fs)
