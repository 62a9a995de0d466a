-- ===== src/Feedback/Shadow/Sent.antt =====
-- src/mlcache/feedback/shadow_collector.py: where `collect` sends the pairs.
use mlcache.Prelude.{
  ℕ, true, false, ◌+◌, ◌%◌, ◌<◌, ◌≡◌, refl, sym, subst, Bool, Option, none, some, List, [], ◌∷◌,
  arith, ◌==◌, if◌then◌else◌,
}
use mlcache.Float.{FloatOps}
use mlcache.Oracle.Feedback.{JudgeLabel}
use mlcache.Feedback.Shadow.{ShadowCollectionConfig, Splits, to_calibration, next_split}
use mlcache.Feedback.Shadow.Collect.{TrainingStore}
use mlcache.Feedback.Shadow.Rounds.{HasShare, share_one}

by_none :
    {F : Type 0} (o : Option F) (a : Bool) (g : F → Bool)
    → o ≡ none
    → (elim o [ some f ↦ g f | none ↦ a ]) ≡ a
by_none none a g e = refl
by_none (some f) a g e = ground arith

-- The calls of a store: whether the pair goes to calibration, and its label.
abbrev pub Sent : Type 0
Sent = List (Bool × JudgeLabel)

abbrev pub same_label : JudgeLabel → JudgeLabel → Bool
same_label JudgeLabel.reusable JudgeLabel.reusable = true
same_label JudgeLabel.not_reusable JudgeLabel.not_reusable = true
same_label JudgeLabel.uncertain JudgeLabel.uncertain = true
same_label _ _ = false

-- How many pairs of a label were sent to a part.
abbrev pub sent_to : Bool → JudgeLabel → Sent → ℕ
sent_to calibration label [] = 0
sent_to true label ((true, l) ∷ log) =
    if same_label label l then sent_to true label log + 1 else sent_to true label log
sent_to false label ((false, l) ∷ log) =
    if same_label label l then sent_to false label log + 1 else sent_to false label log
sent_to calibration label (x ∷ log) = sent_to calibration label log

-- A store that notes its calls, in whatever way it answers them.
abbrev pub noting : {F : Type 0} → TrainingStore F → TrainingStore F
noting ts = record {
  State = ts.State × Sent;
  add_train = λ e s. ((ts.add_train e s.0).0, ((ts.add_train e s.0).1, (false, e.label) ∷ s.1));
  add_calibration =
      λ e s. ((ts.add_calibration e s.0).0, ((ts.add_calibration e s.0).1, (true, e.label) ∷ s.1));
}

-- Of `split` pairs with this label, all were sent, and as many of them to calibration as there are
-- full rounds of `n`.
abbrev pub SentShare : ℕ → JudgeLabel → ℕ → ℕ → Sent → Type 0
SentShare n label split calib log =
    HasShare n split calib
    × (sent_to true label log ≡ calib)
    × (sent_to false label log + sent_to true label log ≡ split)

-- So for either label, and no uncertain pair was sent to calibration.
unfoldable pub Shares : ℕ → Splits → Sent → Type 0
Shares n s log =
    SentShare n JudgeLabel.not_reusable s.h0_split_count s.h0_calib_count log
    × SentShare n JudgeLabel.reusable s.h1_split_count s.h1_calib_count log
    × (sent_to true JudgeLabel.uncertain log ≡ 0)

module _ {F : Type 0} ⦃fl : FloatOps F⦄ (c : ShadowCollectionConfig F)
    (modulo : c.calibration_fraction ≡ none) (pos : 0 < c.calibration_every_n) where
  to_calibration_lem :
      (seen calib : ℕ) → to_calibration c seen calib ≡ (seen % c.calibration_every_n == 0)
  to_calibration_lem seen calib =
      by_none c.calibration_fraction (seen % c.calibration_every_n == 0)
        (λ f. fl.lt (fl.of_ℕ calib) (fl.mul f (fl.of_ℕ seen))) modulo

  share_lem :
      (s k : ℕ)
      → HasShare c.calibration_every_n s k
      → HasShare c.calibration_every_n (s + 1) (if to_calibration c (s + 1) k then k + 1 else k)
  share_lem s k h =
      subst (λ b. HasShare c.calibration_every_n (s + 1) (if b then k + 1 else k))
        (sym (to_calibration_lem (s + 1) k)) (share_one c.calibration_every_n s k pos h)

  sent_lem :
      (label : JudgeLabel) (b : Bool) (s k : ℕ) (log : Sent)
      → SentShare c.calibration_every_n label s k log
      → HasShare c.calibration_every_n (s + 1) (if b then k + 1 else k)
      → same_label label label ≡ true
      → SentShare c.calibration_every_n label (s + 1) (if b then k + 1 else k) ((b, label) ∷ log)
  sent_lem label true s k log (h, t, a) share same =
      (share, rw same (omega (arith, t)), rw same (omega (arith, a)))
  sent_lem label false s k log (h, t, a) share same = (share, t, rw same (omega (arith, a)))

  other_lem :
      (label other : JudgeLabel) (b : Bool) (s k : ℕ) (log : Sent)
      → SentShare c.calibration_every_n label s k log
      → same_label label other ≡ false
      → SentShare c.calibration_every_n label s k ((b, other) ∷ log)
  other_lem label other true s k log (h, t, a) differ = (h, rw differ t, rw differ a)
  other_lem label other false s k log (h, t, a) differ = (h, t, rw differ a)

  none_uncertain :
      (b : Bool) (label : JudgeLabel) (log : Sent)
      → sent_to true JudgeLabel.uncertain log ≡ 0
      → same_label JudgeLabel.uncertain label ≡ false
      → sent_to true JudgeLabel.uncertain ((b, label) ∷ log) ≡ 0
  none_uncertain true label log h differ = rw differ h
  none_uncertain false label log h differ = h

  -- The pair goes where the split says.
  pub next_split-Shares :
      (label : JudgeLabel) (s : Splits) (log : Sent)
      → same_label JudgeLabel.uncertain label ≡ false
      → Shares c.calibration_every_n s log
      → Shares c.calibration_every_n
          (next_split c label s).1
          (((next_split c label s).0, label) ∷ log)
  unfolding next_split Shares
  next_split-Shares JudgeLabel.reusable s log labeled (h0, h1, u) =
      let b = to_calibration c (s.h1_split_count + 1) s.h1_calib_count in
      (
        other_lem JudgeLabel.not_reusable JudgeLabel.reusable b s.h0_split_count s.h0_calib_count
            log h0 refl,
        sent_lem JudgeLabel.reusable b s.h1_split_count s.h1_calib_count log h1
            (share_lem s.h1_split_count s.h1_calib_count h1.0) refl,
        none_uncertain b JudgeLabel.reusable log u refl,
      )
  next_split-Shares JudgeLabel.not_reusable s log labeled (h0, h1, u) =
      let b = to_calibration c (s.h0_split_count + 1) s.h0_calib_count in
      (
        sent_lem JudgeLabel.not_reusable b s.h0_split_count s.h0_calib_count log h0
            (share_lem s.h0_split_count s.h0_calib_count h0.0) refl,
        other_lem JudgeLabel.reusable JudgeLabel.not_reusable b s.h1_split_count s.h1_calib_count
            log h1 refl,
        none_uncertain b JudgeLabel.not_reusable log u refl,
      )
  next_split-Shares JudgeLabel.uncertain s log labeled h = absurd (ground arith)

  -- A pair without a label goes to training.
  pub uncertain-Shares :
      (label : JudgeLabel) (s : Splits) (log : Sent)
      → label ≡ JudgeLabel.uncertain
      → Shares c.calibration_every_n s log
      → Shares c.calibration_every_n s ((false, label) ∷ log)
  unfolding Shares
  uncertain-Shares label s log e (h0, h1, u) =
      subst (λ l. Shares c.calibration_every_n s ((false, l) ∷ log)) (sym e)
        (
          other_lem JudgeLabel.not_reusable JudgeLabel.uncertain false s.h0_split_count
              s.h0_calib_count log h0 refl,
          other_lem JudgeLabel.reusable JudgeLabel.uncertain false s.h1_split_count s.h1_calib_count
              log h1 refl,
          u,
        )
