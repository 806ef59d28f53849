-- ===== src/Base/Sort.antt =====
-- `sorted` on texts: the order of Python's `str`, and an insertion sort.
use filesystem_charms.Base.Tests.{
  Bool-cases, Eq, text_eq, text_beq, text_beq_iff, ◌==◌, ltb, if◌then◌else◌,
}
use filesystem_charms.Base.Lists.{contains}
use filesystem_charms.Base.Text.{Text}
use mathlib.Core.Path.{◌≡◌, refl, ◌∙◌}
use mathlib.Core.Logic.{◌↔◌, inl, inr, ∥∥₁_elim}
use mathlib.Core.Bool.{Bool, true, false, ◌&&◌, ◌||◌}
use mathlib.Core.List.{List, [], ◌∷◌, Perm, Permᴰ}
use mathlib.Core.List.Perm
use native.Mathlib.Omega.{arith}

-- `s <= t`
unfoldable pub text_leb : Text → Text → Bool
text_leb [] t = true
text_leb (c ∷ s) [] = false
text_leb (c ∷ s) (d ∷ t) =
    let rest = text_leb s t in if ltb c d then true else if ltb d c then false else rest

pub text_leb_total : (s t : Text) → text_leb s t ≡ false → text_leb t s ≡ true
unfolding text_leb
text_leb_total [] t h = ground arith
text_leb_total (c ∷ s) [] h = refl
text_leb_total (c ∷ s) (d ∷ t) h = ground (arith, text_leb_total s t)

pub text_leb_antisym : (s t : Text) → text_leb s t ≡ true → text_leb t s ≡ true → s ≡ t
unfolding text_leb
text_leb_antisym [] [] h k = refl
text_leb_antisym [] (d ∷ t) h k = ground arith
text_leb_antisym (c ∷ s) [] h k = ground arith
text_leb_antisym (c ∷ s) (d ∷ t) h k = ground (arith, text_leb_antisym s t)

pub text_leb_trans :
    (s t u : Text) → text_leb s t ≡ true → text_leb t u ≡ true → text_leb s u ≡ true
unfolding text_leb
text_leb_trans [] t u h k = refl
text_leb_trans (c ∷ s) [] u h k = ground arith
text_leb_trans (c ∷ s) (d ∷ t) [] h k = ground arith
text_leb_trans (c ∷ s) (d ∷ t) (e ∷ u) h k = ground (arith, text_leb_trans s t u)

unfoldable pub insert_sorted : Text → List Text → List Text
insert_sorted s [] = s ∷ []
insert_sorted s (t ∷ ts) = if text_leb s t then s ∷ t ∷ ts else t ∷ insert_sorted s ts

unfoldable pub sorted : List Text → List Text
unfolding insert_sorted text_leb
sorted [] = []
sorted (s ∷ ts) = insert_sorted s (sorted ts)

-- The order of two insertions does not matter.
insert_sorted_comm :
    (s t : Text) (us : List Text)
    → insert_sorted s (insert_sorted t us) ≡ insert_sorted t (insert_sorted s us)
unfolding insert_sorted
insert_sorted_comm s t [] = ground (arith, text_leb_total s t, text_leb_antisym s t)
insert_sorted_comm s t (u ∷ us) = ground (
  arith,
  insert_sorted_comm s t us,
  text_leb_total s t,
  text_leb_antisym s t,
  text_leb_total s u,
  text_leb_total t u,
  text_leb_trans s t u,
  text_leb_trans t s u,
)

contains-insert_sorted :
    (s : Text) (ts : List Text) (a : Text)
    → contains (insert_sorted s ts) a ≡ (s == a || contains ts a)
unfolding insert_sorted contains
contains-insert_sorted s [] a = refl
contains-insert_sorted s (t ∷ ts) a = ground (arith, contains-insert_sorted s ts a)

sorted_cons : (s : Text) (ts : List Text) → sorted (s ∷ ts) ≡ insert_sorted s (sorted ts)
unfolding sorted
sorted_cons s ts = refl

pub contains-sorted : (ts : List Text) (a : Text) → contains (sorted ts) a ≡ contains ts a
contains-sorted [] a = unfold sorted contains in refl
contains-sorted (t ∷ ts) a =
    rw (sorted_cons, contains-insert_sorted, contains-sorted ts a) (unfold contains in refl)

insert_sorted-perm : (s : Text) (ts : List Text) → Perm (insert_sorted s ts) (s ∷ ts)
unfolding insert_sorted
insert_sorted-perm s [] = Perm.refl (s ∷ [])
insert_sorted-perm s (t ∷ ts) = elim (Bool-cases (text_leb s t)) [
  | inl le ↦ rw le (Perm.refl (s ∷ t ∷ ts))
  | inr gt ↦ rw gt (Perm.trans (Perm.cons t (insert_sorted-perm s ts)) (Perm.swap s t ts))
]

sorted-perm : (ts : List Text) → Perm (sorted ts) ts
sorted-perm [] = unfold sorted in Perm.refl []
sorted-perm (t ∷ ts) =
    rw sorted_cons (Perm.trans (insert_sorted-perm t (sorted ts)) (Perm.cons t (sorted-perm ts)))

sorted_of_permᴰ : {ss ts : List Text} → Permᴰ ss ts → sorted ss ≡ sorted ts
sorted_of_permᴰ Permᴰ.nil = refl
sorted_of_permᴰ (Permᴰ.cons {a} {l₁ = ss} {l₂ = ts} e p) =
    rw (← e, sorted_cons a ss, sorted_cons a ts, sorted_of_permᴰ p)
sorted_of_permᴰ (Permᴰ.swap {a} {b} {l = ts} p q) =
    rw (← p, ← q) (simp sorted_cons (insert_sorted_comm a b (sorted ts)))
sorted_of_permᴰ (Permᴰ.trans p q) = sorted_of_permᴰ p ∙ sorted_of_permᴰ q

texts_set : IsSet (List Text)
texts_set = hlevel

-- Two lists of texts sort alike exactly if they hold the same texts, as often.
pub sorted_iff : (ss ts : List Text) → (sorted ss ≡ sorted ts) ↔ Perm ss ts
sorted_iff ss ts = (
  λ e. Perm.trans (Perm.symm (sorted-perm ss)) (rw e (sorted-perm ts)),
  λ p. ∥∥₁_elim p (texts_set _ _) sorted_of_permᴰ,
)

unfoldable pub texts_beq : List Text → List Text → Bool
texts_beq [] [] = true
texts_beq [] (t ∷ ts) = false
texts_beq (s ∷ ss) [] = false
texts_beq (s ∷ ss) (t ∷ ts) = text_beq s t && texts_beq ss ts

pub texts_beq_iff : (ss ts : List Text) → (texts_beq ss ts ≡ true) ↔ (ss ≡ ts)
unfolding texts_beq
texts_beq_iff [] [] = ground arith
texts_beq_iff [] (t ∷ ts) = ground arith
texts_beq_iff (s ∷ ss) [] = ground arith
texts_beq_iff (s ∷ ss) (t ∷ ts) = ground (arith, texts_beq_iff ss ts, text_beq_iff s t)

instance abbrev pub texts_eq : Eq (List Text)
texts_eq = record { beq = texts_beq; beq_iff = texts_beq_iff }
