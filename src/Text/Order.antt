-- ===== src/Text/Order.antt =====
-- Equality and order of texts.
use provenancerank.Prelude.{◌≡◌, refl, true, false, List, [], ◌∷◌, arith, ◌↔◌, All, All_weaken, map}
use provenancerank.Text.{member_text, Text, text_ltb, text_eqb}

pub text_eqb_iff : (s t : Text) → (text_eqb s t ≡ true) ↔ (s ≡ t)
unfolding text_eqb
text_eqb_iff [] [] = ground arith
text_eqb_iff [] (d ∷ t) = ground arith
text_eqb_iff (c ∷ s) [] = ground arith
text_eqb_iff (c ∷ s) (d ∷ t) = ground (arith, text_eqb_iff s t)

pub text_eqb_sym : (s t : Text) → text_eqb s t ≡ text_eqb t s
unfolding text_eqb
text_eqb_sym [] [] = refl
text_eqb_sym [] (d ∷ t) = refl
text_eqb_sym (c ∷ s) [] = refl
text_eqb_sym (c ∷ s) (d ∷ t) = ground (arith, text_eqb_sym s t)

-- No text is before and behind another.
pub text_ltb_asym : (s t : Text) → text_ltb s t ≡ true → text_ltb t s ≡ false
unfolding text_ltb
text_ltb_asym [] [] h = refl
text_ltb_asym [] (d ∷ t) h = refl
text_ltb_asym (c ∷ s) [] h = ground arith
text_ltb_asym (c ∷ s) (d ∷ t) h = ground (arith, text_ltb_asym s t)

pub member_text_self : (s : Text) (ts : List Text) → member_text s (s ∷ ts) ≡ true
unfolding member_text
member_text_self s ts = rw ((text_eqb_iff s s).1 refl) refl

pub member_text_tail :
    (s t : Text) (ts : List Text) → member_text s ts ≡ true → member_text s (t ∷ ts) ≡ true
unfolding member_text
member_text_tail s t ts h = ground arith

-- Every element's image is in the list of the images.
pub All-member_text {ℓ} :
    {A : Type ℓ} (f : A → Text) (xs : List A) → All (λ x. member_text (f x) (map f xs) ≡ true) xs
All-member_text f [] = tt
All-member_text f (x ∷ xs) = (
  member_text_self (f x) (map f xs),
  All_weaken _ _ xs (λ y h. member_text_tail (f y) (f x) (map f xs) h) (All-member_text f xs),
)
