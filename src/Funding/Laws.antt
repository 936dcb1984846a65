-- ===== src/Funding/Laws.antt =====
-- packages/service/src/funding-watch.ts: the classification, the deadline and the watch.
use btcr2_aggregation.Prelude.{
  ◌-◌, min, ◌≡◌, ◌≢◌, ◌≤◌, ◌<◌, refl, ap, ◌↔◌, inl, inr, Bool, true, false, List, [], ◌∷◌, Option,
  none, some, ℕ, if◌then◌else◌, ltb, is_some, arith, Bool-cases, All, not, any,
}
use btcr2_aggregation.Funding.{
  AddressUtxo, FundingState, funded, classify_selected, classify_funding, Duration, finite, unset,
  not_finite, compute_funding_deadline, Watch, Poll, is_funded, emit, observe, turn, turns,
  fresh_watch,
}

abbrev value_of : Option AddressUtxo → ℕ
value_of none = 0
value_of (some u) = u.value

value_below :
    {suggested : ℕ} {u : AddressUtxo} (v : AddressUtxo)
    → ltb v.value suggested ≡ true
    → some v ≡ some u
    → u.value < suggested
value_below v e same = ground (arith, e, ap value_of same)

value_enough :
    {suggested : ℕ} {u : AddressUtxo} (v : AddressUtxo)
    → ltb v.value suggested ≡ false
    → some v ≡ some u
    → suggested ≤ u.value
value_enough v e same = ground (arith, e, ap value_of same)

module _ (select : List AddressUtxo → Option AddressUtxo) where
  -- An address is classified as funded by an output exactly if there are outputs, the library
  -- selects that one to spend, and it is worth the suggested minimum: never by another output.
  pub classify_funding-eq-funded_iff :
      (utxos : List AddressUtxo) (suggested : ℕ) (u : AddressUtxo)
      → (classify_funding select utxos suggested ≡ record { state = funded; selected = some u })
        ↔ ((utxos ≢ []) × (select utxos ≡ some u) × (suggested ≤ u.value))
  unfolding classify_funding
  classify_funding-eq-funded_iff [] suggested u = (λ h. cc, λ h. elim (h.0 refl) [ ])
  classify_funding-eq-funded_iff (x ∷ xs) suggested u = by_choice (select (x ∷ xs))
    where
      by_choice :
          (o : Option AddressUtxo)
          → (classify_selected select o (x ∷ xs) suggested
              ≡ record { state = funded; selected = some u })
            ↔ ((◌≢◌ {A = List AddressUtxo} (x ∷ xs) []) × (o ≡ some u) × (suggested ≤ u.value))
      by_choice none = elim (Bool-cases (any (λ u. not u.confirmed) (x ∷ xs))) [
        | inl e ↦ rw e (λ h. cc, λ h. cc (h.1))
        | inr e ↦ rw e (λ h. cc, λ h. cc (h.1))
      ]
      by_choice (some v) = elim (Bool-cases (ltb v.value suggested)) [
        | inl e ↦ rw e (λ h. cc, λ h. ground (arith, value_below v e h.1, h.2))
        | inr e ↦ rw e (
          λ h. (λ q. cc, ap (λ s. s.selected) h, value_enough v e (ap (λ s. s.selected) h)),
          λ h. ap (λ o. record { state = funded; selected = o }) h.1,
        )
      ]

-- With a finite lifetime, the funding wait ends the slack before it, at the latest; with a finite
-- window, no later than that; and a truncation is disclosed exactly if the lifetime binds first.
pub compute_funding_deadline_lem :
    (window : Duration) (ttl slack : ℕ)
    → (ms : ℕ) × ((compute_funding_deadline window (finite ttl) slack).deadline_ms ≡ some ms)
      × (ms ≤ ttl - slack)
      × ((w : ℕ) → window ≡ finite w → ms ≤ w)
      × ((is_some (compute_funding_deadline window (finite ttl) slack).truncated_window_min ≡ true)
          ↔ ((w : ℕ) → window ≡ finite w → ttl - slack < w))
unfolding compute_funding_deadline
compute_funding_deadline_lem unset ttl slack =
    (ttl - slack, refl, omega arith, (λ w h. cc), ((λ h w e. cc), λ h. refl))
compute_funding_deadline_lem not_finite ttl slack =
    (ttl - slack, refl, omega arith, (λ w h. cc), ((λ h w e. cc), λ h. refl))
compute_funding_deadline_lem (finite n) ttl slack = elim (Bool-cases (ltb (ttl - slack) n)) [
  | inl e ↦ rw e (
    min n (ttl - slack),
    refl,
    omega arith,
    (λ w h. ground (arith, h)),
    ((λ h w i. ground (arith, i, e)), λ h. refl),
  )
  | inr e ↦ rw e (
    min n (ttl - slack),
    refl,
    omega arith,
    (λ w h. ground (arith, h)),
    ((λ h w i. cc), λ h. ground (arith, h n refl, e)),
  )
]

module _ (select : List AddressUtxo → Option AddressUtxo) (suggested : ℕ) where
  -- No emission but possibly the latest says funded.
  abbrev pub FundedLast : List (FundingState × Bool) → Type 0
  FundedLast [] = Unit
  FundedLast (e ∷ es) = All (λ d. is_funded d.0.state ≡ false) es

  -- What holds of a watch: it runs only while nothing has been reported as funded.
  pub record WatchValid (w : Watch) : Type 0 where
    pub last_one : FundedLast w.emitted
    pub running : w.aborted ≡ false → All (λ d. is_funded d.0.state ≡ false) w.emitted
    pub unfunded : w.aborted ≡ false → is_funded w.last_state.state ≡ false

  emit-WatchValid :
      (last : FundingState) (ok stopped : Bool) (w : Watch)
      → w.aborted ≡ false
      → WatchValid w
      → WatchValid (emit last ok stopped w)
  unfolding emit
  emit-WatchValid last ok true w r v = record {
    last_one = v.last_one;
    running = λ h. cc;
    unfunded = λ h. cc;
  }
  emit-WatchValid last ok false w r v = record {
    last_one = v.running r;
    running = λ h. (h, v.running r);
    unfunded = λ h. h;
  }

  turn-WatchValid : (p : Poll) (w : Watch) → WatchValid w → WatchValid (turn select suggested p w)
  unfolding turn
  turn-WatchValid p w v = guarded w.aborted refl
    where
      observed :
          (o : Option (List AddressUtxo)) (stopped : Bool)
          → w.aborted ≡ false
          → WatchValid (observe select suggested o stopped w)
      observed none stopped e = emit-WatchValid w.last_state false stopped w e v
      observed (some utxos) stopped e =
          emit-WatchValid (classify_funding select utxos suggested) true stopped w e v

      guarded :
          (b : Bool)
          → w.aborted ≡ b
          → WatchValid (if b then w else observe select suggested p.observed p.stopped_meanwhile w)
      guarded true e = v
      guarded false e = observed p.observed p.stopped_meanwhile e

  turns-WatchValid :
      (ps : List Poll) (w : Watch) → WatchValid w → WatchValid (turns select suggested ps w)
  unfolding turns
  turns-WatchValid [] w v = v
  turns-WatchValid (p ∷ ps) w v =
      turns-WatchValid ps (turn select suggested p w) (turn-WatchValid p w v)

  -- Over any polls, outages and stops, a watch that reports funded reports nothing afterwards, so
  -- change that returns to the address never overwrites the funded view.
  pub turns-FundedLast :
      (ps : List Poll) → FundedLast (turns select suggested ps fresh_watch).emitted
  unfolding is_funded
  turns-FundedLast ps = WatchValid.last_one (turns-WatchValid ps fresh_watch fresh_valid)
    where
      fresh_valid : WatchValid fresh_watch
      fresh_valid = record { last_one = tt; running = λ h. tt; unfunded = λ h. refl }
