-- ===== src/Cohorts/Draft/Validation.antt =====
-- packages/service/src/operator-cohorts.ts: the draft validator beside an independent description of
-- an acceptable body.
use btcr2_aggregation.Prelude.{
  ◌≡◌, ◌≤◌, ◌≢◌, ◌↔◌, ◌&&◌, refl, sym, subst, ◌∙◌, Bool, true, false, not, Option, none, some,
  String, ℕ, ltb, ◌==◌, ◌⊎◌, arith, eq_iff,
}
use btcr2_aggregation.Cohorts.Config.{
  BeaconType, cas_beacon, smt_beacon, DraftError, size_error, threshold_error, fallback_off_error,
  discovery_window_error, funding_window_error, ok, reject_if, >>=-of_ok,
}
use btcr2_aggregation.Cohorts.Draft.{
  Wire, WireText, text, DraftInput, CohortTtl, unset, not_finite, finite, ValidDraft, one_minute_ms,
  beacon_name, known_beacon_type, whole, window, threshold_or, ceiling_guard, validate_draft,
}

-- A field that is not given.
abbrev pub IsMissing : Wire → Type 0
IsMissing w = (w ≡ Wire.absent) ⊎ (w ≡ Wire.null)

-- A window field, and the explicit window that it stands for.
abbrev pub Denotes : Wire → Option ℕ → Type 0
Denotes w none = IsMissing w
Denotes w (some ms) = (w ≡ Wire.int ms) × (one_minute_ms ≤ ms)

-- A discovery window fits below a finite lifetime.
abbrev pub FitsTtl : Option ℕ → CohortTtl → Type 0
FitsTtl (some ms) (finite ttl) = ms ≤ ttl
FitsTtl (some ms) unset = Unit
FitsTtl (some ms) not_finite = Unit
FitsTtl none ttl = Unit

-- The body describes this draft, and the service can keep what it promises.
pub record Describes (input : DraftInput) (auto_fallback : Bool) (ttl : CohortTtl) (v : ValidDraft)
    : Type 0 where
  pub kind : input.beacon_type ≡ text (beacon_name v.beacon_type)
  pub seats : input.size ≡ Wire.int v.size
  pub seated : 1 ≤ v.size
  pub signers :
      (input.threshold ≡ Wire.int v.threshold)
      ⊎ (IsMissing input.threshold × (v.threshold ≡ v.size))
  pub signed : 1 ≤ v.threshold
  pub signed_by_seats : v.threshold ≤ v.size
  pub promised : (v.threshold ≡ v.size) ⊎ (auto_fallback ≡ true)
  pub discovery : Denotes input.discovery_window_ms v.windows.discovery_window_ms
  pub funding : Denotes input.funding_window_ms v.windows.funding_window_ms
  pub fits : FitsTtl v.windows.discovery_window_ms ttl

names_differ : (t : String) → t ≡ "CASBeacon" → t ≢ "SMTBeacon"
names_differ t p q =
    let e : ("CASBeacon" == "SMTBeacon") ≡ true = (eq_iff _ _).1 (sym p ∙ q) in cc e

known_beacon_type-eq-ok_iff :
    (w : WireText) (b : BeaconType) → (known_beacon_type w ≡ ok b) ↔ (w ≡ text (beacon_name b))
unfolding known_beacon_type beacon_name
known_beacon_type-eq-ok_iff (text t) cas_beacon =
    ground (arith, eq_iff t "CASBeacon", eq_iff t "SMTBeacon")
known_beacon_type-eq-ok_iff (text t) smt_beacon =
    ground (arith, eq_iff t "CASBeacon", eq_iff t "SMTBeacon", names_differ t)
known_beacon_type-eq-ok_iff _ b = ground arith

whole-eq-ok_iff :
    (least : ℕ) (e : DraftError) (w : Wire) (n : ℕ)
    → (whole least e w ≡ ok n) ↔ ((w ≡ Wire.int n) × (least ≤ n))
unfolding whole
whole-eq-ok_iff least e (Wire.int m) n = ground arith
whole-eq-ok_iff least e _ n = ground arith

window-eq-ok_iff : (e : DraftError) (w : Wire) (o : Option ℕ) → (window e w ≡ ok o) ↔ Denotes w o
unfolding window whole
window-eq-ok_iff e (Wire.int m) none = ground arith
window-eq-ok_iff e (Wire.int m) (some n) = ground arith
window-eq-ok_iff e _ none = ground arith
window-eq-ok_iff e _ (some n) = ground arith

threshold_or-eq-int_iff :
    (w : Wire) (size k : ℕ)
    → (threshold_or w size ≡ Wire.int k) ↔ ((w ≡ Wire.int k) ⊎ (IsMissing w × (k ≡ size)))
unfolding threshold_or
threshold_or-eq-int_iff Wire.absent size k = ground arith
threshold_or-eq-int_iff _ size k = ground arith

ceiling_guard-eq-ok_iff :
    (o : Option ℕ) (ttl : CohortTtl) → (ceiling_guard o ttl ≡ ok tt) ↔ FitsTtl o ttl
unfolding ceiling_guard
ceiling_guard-eq-ok_iff (some ms) (finite ttl) = ground arith
ceiling_guard-eq-ok_iff (some ms) _ = ground arith
ceiling_guard-eq-ok_iff none ttl = ground arith

reject_if-eq-ok : (b : Bool) (e : DraftError) (u : Unit {0}) → reject_if b e ≡ ok u → b ≡ false
reject_if-eq-ok true e u h = cc
reject_if-eq-ok false e u h = refl

module _ (input : DraftInput) (auto_fallback : Bool) (ttl : CohortTtl) where
  described :
      (b : BeaconType) (size k : ℕ) (d f : Option ℕ) {u u' u'' : Unit {0}}
      → known_beacon_type input.beacon_type ≡ ok b
      → whole 1 size_error input.size ≡ ok size
      → whole 1 threshold_error (threshold_or input.threshold size) ≡ ok k
      → reject_if (ltb size k) threshold_error ≡ ok u
      → reject_if (ltb k size && not auto_fallback) fallback_off_error ≡ ok u'
      → window discovery_window_error input.discovery_window_ms ≡ ok d
      → window funding_window_error input.funding_window_ms ≡ ok f
      → ceiling_guard d ttl ≡ ok u''
      → Describes input auto_fallback ttl (record {
        beacon_type = b;
        size = size;
        threshold = k;
        windows = record { discovery_window_ms = d; funding_window_ms = f };
      })
  described b size k d f hb hs hk hr hf hd hw hc =
      let (sized, seated) = (whole-eq-ok_iff 1 size_error input.size size).0 hs in
      let (given, signed) = (whole-eq-ok_iff 1 threshold_error _ k).0 hk in
      record {
        kind = (known_beacon_type-eq-ok_iff _ b).0 hb;
        seats = sized;
        seated = seated;
        signers = (threshold_or-eq-int_iff _ _ _).0 given;
        signed = signed;
        signed_by_seats = ground arith;
        promised = ground arith;
        discovery = (window-eq-ok_iff discovery_window_error _ d).0 hd;
        funding = (window-eq-ok_iff funding_window_error _ f).0 hw;
        fits = (ceiling_guard-eq-ok_iff d ttl).0 hc;
      }

  validate_draft_sound :
      (v : ValidDraft)
      → validate_draft input auto_fallback ttl ≡ ok v
      → Describes input auto_fallback ttl v
  unfolding validate_draft
  validate_draft_sound v h = >>=-of_ok (known_beacon_type input.beacon_type) _ h λ b hb h1.
      >>=-of_ok (whole 1 size_error input.size) _ h1 λ size hs h2.
        >>=-of_ok (whole 1 threshold_error (threshold_or input.threshold size)) _ h2 λ k hk h3.
          >>=-of_ok (reject_if (ltb size k) threshold_error) _ h3 λ u hr h4.
            >>=-of_ok (reject_if (ltb k size && not auto_fallback) fallback_off_error) _ h4
              λ u' hf h5.
                >>=-of_ok (window discovery_window_error input.discovery_window_ms) _ h5 λ d hd h6.
                  >>=-of_ok (window funding_window_error input.funding_window_ms) _ h6 λ f hw h7.
                    >>=-of_ok (ceiling_guard d ttl) _ h7 λ u'' hc h8.
                      subst (Describes input auto_fallback ttl) (cc)
                        (described b size k d f hb hs hk hr hf hd hw hc)

  validate_draft_complete :
      (v : ValidDraft)
      → Describes input auto_fallback ttl v
      → validate_draft input auto_fallback ttl ≡ ok v
  unfolding validate_draft
  validate_draft_complete v d =
      rw
        (
          (known_beacon_type-eq-ok_iff _ _).1 d.kind,
          (whole-eq-ok_iff 1 size_error _ _).1 (d.seats, d.seated),
          (threshold_or-eq-int_iff _ _ _).1 d.signers,
          (whole-eq-ok_iff 1 threshold_error _ _).1 (refl, d.signed),
          (window-eq-ok_iff discovery_window_error _ _).1 d.discovery,
          (window-eq-ok_iff funding_window_error _ _).1 d.funding,
          (ceiling_guard-eq-ok_iff _ _).1 d.fits,
        )
        (ground arith)

  -- The validator accepts a body as a draft exactly when the body describes that draft: a known
  -- beacon type, a whole number of seats, a signing threshold (by default the seats) between 1 and
  -- the seats, below the seats only with the stall fallback on, windows of a minute or more in whole
  -- milliseconds (so also one of a minute and a half, which the text of the refusal rules out), and a
  -- discovery window within a finite cohort lifetime.
  pub validate_draft-eq-ok_iff :
      (v : ValidDraft)
      → (validate_draft input auto_fallback ttl ≡ ok v) ↔ Describes input auto_fallback ttl v
  validate_draft-eq-ok_iff v = (validate_draft_sound v, validate_draft_complete v)
