-- ===== src/ArtifactCache/Honest.antt =====
-- Which artifacts core/artifact_cache.py can give back.
use provenancerank.Prelude.{
  ◌≡◌, refl, sym, ap, ◌∙◌, Bool, true, false, ◌&&◌, none, some, List, [], ◌∷◌, All, if◌then◌else◌,
  Bool-cases, ◌⊎◌, inl, inr, arith,
}
use provenancerank.Text.{Text, strip, text_eqb}
use provenancerank.Text.Order.{text_eqb_iff}
use provenancerank.ArtifactCache.{
  Store, good, written, exists, is_stamped, is_fresh, stamp, readable, load, write, save,
  or_compute, cached_stage,
}

module _ {A : Type 0} where
  load-save :
      (artifact key key' : Text) (a : A) (s : Store A)
      → load artifact key (save artifact key' a s)
        ≡ (if text_eqb (strip key') key then some a else none)
  unfolding load save is_fresh stamp write written exists is_stamped readable
  load-save artifact key key' a s = rw ((text_eqb_iff artifact artifact).1 refl) refl

  -- A save that is cut off between the artifact and its key, over an artifact that was fresh for some
  -- key: that key now gives back the new artifact, whatever inputs it was computed of.
  load-write :
      (artifact key : Text) (a : A) (s : Store A)
      → is_fresh artifact key s ≡ true
      → load artifact key (write artifact a s) ≡ some a
  unfolding load is_fresh write written exists readable
  load-write artifact key a s fresh =
      rw
        (
          (text_eqb_iff artifact artifact).1 refl,
          and_right (exists (s.artifacts artifact)) (is_stamped key (s.keys artifact)) fresh,
        )
        refl
    where
      and_right : (b c : Bool) → (b && c) ≡ true → c ≡ true
      and_right b c h = ground arith

module _ {A Input : Type 0} (key_of : Input → Text) (compute : Input → A) (artifact : Text) where
  -- A run of the stage, with whether it resumes and its input
  abbrev stage : Bool → Input → Store A → Store A × A
  stage resume input s = cached_stage resume artifact (key_of input) (compute input) s

  -- The runs of the stage, one after the other, with what each gives.
  pub runs : List (Bool × Input) → Store A → List (Input × A)
  runs [] s = []
  runs ((resume, input) ∷ rest) s = let (s', a) = stage resume input s in (input, a) ∷ runs rest s'

  -- The artifact has no key, or it is what was computed of the input that its key stands for.
  Saved : Store A → Type 0
  Saved s =
      (s.keys artifact ≡ none)
      ⊎ ((input : Input) × (s.keys artifact ≡ some (key_of input))
          × (s.artifacts artifact ≡ some (good (compute input))))

  save-Saved :
      (input : Input) (s : Store A) → Saved (save artifact (key_of input) (compute input) s)
  unfolding Saved save stamp write written
  save-Saved input s = inr (
    input,
    rw ((text_eqb_iff artifact artifact).1 refl) refl,
    rw ((text_eqb_iff artifact artifact).1 refl) refl,
  )

  module _ (stripped : (input : Input) → strip (key_of input) ≡ key_of input)
      (injective : (input other : Input) → key_of input ≡ key_of other → input ≡ other) where
    and_none : (b : Bool) → (b && false) ≡ false
    and_none b = ground arith

    load-Saved :
        (input : Input) (s : Store A)
        → Saved s
        → (load artifact (key_of input) s ≡ none)
          ⊎ (load artifact (key_of input) s ≡ some (compute input))
    unfolding load is_fresh exists is_stamped readable Saved
    load-Saved input s (inl e) = inl (rw (e, and_none (exists (s.artifacts artifact))) refl)
    load-Saved input s (inr (other, k, a)) =
        elim (Bool-cases (text_eqb (strip (key_of other)) (key_of input))) [
          | inl e ↦ inr (
              rw (a, k, e)
                (ap (λ i. some (compute i))
                  (injective other input
                    (sym (stripped other) ∙ (text_eqb_iff (strip (key_of other)) _).0 e))))
          | inr e ↦ inl (rw (a, k, e) refl)
        ]

    stage-Saved :
        (resume : Bool) (input : Input) (s : Store A)
        → Saved s
        → Saved (stage resume input s).0 × ((stage resume input s).1 ≡ compute input)
    unfolding cached_stage or_compute
    stage-Saved false input s saved = (save-Saved input s, refl)
    stage-Saved true input s saved = elim (load-Saved input s saved) [
      | inl e ↦ rw e (save-Saved input s, refl)
      | inr e ↦ rw e (saved, refl)
    ]

    runs-Saved :
        (history : List (Bool × Input)) (s : Store A)
        → Saved s
        → All (λ r. r.1 ≡ compute r.0) (runs history s)
    unfolding runs
    runs-Saved [] s saved = tt
    runs-Saved ((resume, input) ∷ rest) s saved =
        let (saved', right) = stage-Saved resume input s saved in
        (right, runs-Saved rest (stage resume input s).0 saved')

  -- Where keys are free of space at their ends and no two inputs have the same key: from files of which
  -- the artifact has no key, whatever else they hold, every run of a stage gives what it computes of
  -- its own input, resumed or not and whatever the runs before it computed, as long as no run is cut
  -- off.
  pub runs-computed :
      ((input : Input) → strip (key_of input) ≡ key_of input)
      → ((input other : Input) → key_of input ≡ key_of other → input ≡ other)
      → (history : List (Bool × Input)) (s : Store A) → s.keys artifact ≡ none
      → All (λ r. r.1 ≡ compute r.0) (runs history s)
  unfolding Saved
  runs-computed stripped injective history s e = runs-Saved stripped injective history s (inl e)
