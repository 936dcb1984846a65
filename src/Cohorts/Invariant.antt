-- ===== src/Cohorts/Invariant.antt =====
-- What holds of the tables of `createOperatorCohorts` between any two steps.
pub mod Steps
use btcr2_aggregation.Prelude.{
  ◌+◌, ◌≡◌, ◌≤◌, ◌||◌, ◌&&◌, refl, sym, ◌∙◌, Bool, true, false, not, List, [], ◌∷◌, Option, none,
  some, String, ℕ, suc, if◌then◌else◌, ◌==◌, ◌⊎◌, inl, inr, arith, eq_iff, length, Bool-cases,
  Option-cases, subst,
}
use btcr2_aggregation.OrderedMap.{OrderedMap, get, has, set, delete, evict}
use btcr2_aggregation.OrderedMap.Laws.{
  Distinct, set-Distinct, delete-Distinct, has-set, has-delete, length-delete,
}
use btcr2_aggregation.OrderedMap.Bounds.{
  evict-Distinct, length-evict-le, has-evict_absent, length-remember-le, remember-Distinct,
}
use btcr2_aggregation.Intents.{CohortIntent, CohortIntents, max_intents, declare, clear}
use btcr2_aggregation.Cohorts.Config.{CohortConfig}
use btcr2_aggregation.Cohorts.Draft.{DraftWindows}
use btcr2_aggregation.Cohorts.State.{
  DraftEntry, TerminalRecord, State, Runner, Options, max_terminal, max_dismissed_canceled,
  arm_window_timer, arms_timer, repair_advert_slot, find_open, owns_slot,
}

-- A bounded table: no key twice, and at most so many entries.
pub record Bounded {V : Type 0} (limit : ℕ) (m : OrderedMap V) : Type 0 where
  pub distinct : Distinct m
  pub bounded : length m ≤ limit

-- The three tables that are keyed by the advertised cohorts.
pub record Linked (advertised : OrderedMap CohortConfig) (windows : OrderedMap DraftWindows)
    (timers : OrderedMap ℕ) (stopped : Bool) : Type 0 where
  pub advertised_distinct : Distinct advertised
  pub windows_distinct : Distinct windows
  pub timers_bounded : Bounded max_terminal timers
  pub windows_follow : (id : String) → has id windows ≡ has id advertised
  pub timers_live : (id : String) → has id timers ≡ true → has id advertised ≡ true
  pub stopped_quiet : stopped ≡ true → timers ≡ []

-- The tables of a state: no key twice, each bounded table within its bound, a pair of windows for
-- exactly the advertised cohorts, a timer only for an advertised cohort, and none once stopped.
abbrev pub IsValid : {S : Type 0} → State S → Type 0
IsValid s =
    Distinct s.drafts
    × Bounded max_terminal s.terminal
    × Bounded max_dismissed_canceled s.dismissed_canceled
    × Bounded max_intents s.intents
    × Linked s.advertised s.advertised_windows s.window_timers s.stopped

module _ {V : Type 0} where
  pub has_of_evict :
      (limit : ℕ) (k : String) (m : OrderedMap V) → has k (evict limit m) ≡ true → has k m ≡ true
  has_of_evict limit k m h = ground (arith, has-evict_absent limit k m)

  pub length-delete-le :
      (n : ℕ) (k : String) (m : OrderedMap V) → length m ≤ n → length (delete k m) ≤ n
  length-delete-le n k m h = ground (arith, length-delete k m)

  pub set-Bounded :
      (limit : ℕ) (k : String) (v : V) (m : OrderedMap V)
      → Distinct m
      → Bounded limit (evict limit (set k v m))
  set-Bounded limit k v m d = record {
    distinct = evict-Distinct limit (set k v m) (set-Distinct k v m d);
    bounded = length-evict-le limit (set k v m);
  }

  pub delete-Bounded :
      (limit : ℕ) (k : String) (m : OrderedMap V) → Bounded limit m → Bounded limit (delete k m)
  delete-Bounded limit k m b = record {
    distinct = delete-Distinct k m b.distinct;
    bounded = length-delete-le limit k m b.bounded;
  }

pub declare-Bounded :
    (id : String) (i : CohortIntent) (m : CohortIntents)
    → Distinct m
    → Bounded max_intents (declare id i m)
unfolding declare
declare-Bounded id i m d = record {
  distinct = remember-Distinct max_intents id i m d;
  bounded = length-remember-le max_intents id i m;
}

module _ {advertised : OrderedMap CohortConfig} {windows : OrderedMap DraftWindows}
    {timers : OrderedMap ℕ} {stopped : Bool} (v : Linked advertised windows timers stopped) where
  -- A cohort that is advertised gets its windows.
  pub Linked-enter :
      (id : String) (c : CohortConfig) (w : DraftWindows)
      → Linked (set id c advertised) (set id w windows) timers stopped
  Linked-enter id c w = record {
    advertised_distinct = set-Distinct id c advertised v.advertised_distinct;
    windows_distinct = set-Distinct id w windows v.windows_distinct;
    timers_bounded = v.timers_bounded;
    windows_follow =
        λ j. ground (arith, has-set j id c advertised, has-set j id w windows, v.windows_follow j);
    timers_live = λ j h. ground (arith, has-set j id c advertised, v.timers_live j h);
    stopped_quiet = v.stopped_quiet;
  }

  -- A timer is armed for an advertised cohort of a running service.
  pub Linked-arm :
      (id : String) (ms : ℕ)
      → has id advertised ≡ true
      → stopped ≡ false
      → Linked advertised windows (evict max_terminal (set id ms timers)) stopped
  Linked-arm id ms live running = record {
    advertised_distinct = v.advertised_distinct;
    windows_distinct = v.windows_distinct;
    timers_bounded = set-Bounded max_terminal id ms timers v.timers_bounded.distinct;
    windows_follow = v.windows_follow;
    timers_live = armed;
    stopped_quiet = λ h. cc;
  }
    where
      armed :
          (j : String)
          → has j (evict max_terminal (set id ms timers)) ≡ true
          → has j advertised ≡ true
      armed j h = ground (
        arith,
        has_of_evict max_terminal j (set id ms timers) h,
        has-set j id ms timers,
        v.timers_live j,
        eq_iff id j,
      )

  pub Linked-disarm : (id : String) → Linked advertised windows (delete id timers) stopped
  unfolding delete
  Linked-disarm id = record {
    advertised_distinct = v.advertised_distinct;
    windows_distinct = v.windows_distinct;
    timers_bounded = delete-Bounded max_terminal id timers v.timers_bounded;
    windows_follow = v.windows_follow;
    timers_live =
        λ j h. ground (arith, has-delete j id timers v.timers_bounded.distinct, v.timers_live j);
    stopped_quiet = λ h. rw (v.stopped_quiet h, delete) refl;
  }

  pub Linked-drop :
      (id : String) → Linked (delete id advertised) (delete id windows) (delete id timers) stopped
  Linked-drop id = record {
    advertised_distinct = delete-Distinct id advertised v.advertised_distinct;
    windows_distinct = delete-Distinct id windows v.windows_distinct;
    timers_bounded = delete-Bounded max_terminal id timers v.timers_bounded;
    windows_follow = λ j. ground (
      arith,
      has-delete j id advertised v.advertised_distinct,
      has-delete j id windows v.windows_distinct,
      v.windows_follow j,
    );
    timers_live = λ j h. ground (
      arith,
      has-delete j id advertised v.advertised_distinct,
      has-delete j id timers v.timers_bounded.distinct,
      v.timers_live j,
    );
    stopped_quiet = (Linked-disarm id).stopped_quiet;
  }

  pub Linked-stop : Linked advertised windows [] true
  unfolding has
  Linked-stop = record {
    advertised_distinct = v.advertised_distinct;
    windows_distinct = v.windows_distinct;
    timers_bounded = record { distinct = tt; bounded = omega arith };
    windows_follow = v.windows_follow;
    timers_live = λ j h. no_timer j h;
    stopped_quiet = λ h. refl;
  }
    where
      no_timer : (j : String) → has {V = ℕ} j [] ≡ true → has j advertised ≡ true
      no_timer j h = cc
