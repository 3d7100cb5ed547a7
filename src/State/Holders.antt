-- ===== src/State/Holders.antt =====
-- Several plans that take and give back locks: what each plan takes itself to hold, against the table.
use planner_critic_engine.Prelude.{
  ℕ, ◌+◌, ◌≤◌, String, true, false, ◌&&◌, Option, none, some, [], ◌∷◌, Dict, dict_get,
  dict_get-dict_set, ◌==◌, string_eq, if◌then◌else◌, ◌≡◌, refl, sym, ap, ◌∙◌, subst, arith,
  Bool-cases, inl, inr, ==→≡,
}
use planner_critic_engine.State.{
  ResourceLock, StateLock, granted, wait, fail_fast, escalate, LockStrategy, is_locked, active,
  grant, at_conflict, first_try, poll, release, dict_del,
}

pub record System : Type 0 where
  pub table : StateLock
  pub now : ℕ
  -- When a plan was granted a resource, and nobody has released the resource since.
  pub held : String → String → Option ℕ

abbrev pub mark :
    (String → String → Option ℕ) → String → String → Option ℕ → String → String → Option ℕ
mark held plan uri since p u = if p == plan && u == uri then since else held p u

abbrev pub unmark : (String → String → Option ℕ) → String → String → String → Option ℕ
unmark held uri p u = if u == uri then none else held p u

-- The critical sections of the lock. Anybody may release a resource at any time, and the clock does not
-- go back.
pub data Step : System → System → Type 0 where
  passes : {y : System} (t : ℕ) → y.now ≤ t → Step y (record y { now = t })
  takes :
      {y : System} (plan uri : String) {t : StateLock}
      → first_try y.now y.table uri plan ≡ granted t
      → Step y (record y { table = t; held = mark y.held plan uri (some y.now) })
  polls :
      {y : System} (plan uri : String) {t : StateLock}
      → poll y.now y.table uri plan ≡ some t
      → Step y (record y { table = t; held = mark y.held plan uri (some y.now) })
  releases :
      {y : System} (uri : String)
      → Step y (record y { table = release y.table uri; held = unmark y.held uri })

-- A system before the first call.
abbrev pub initial : LockStrategy → ℕ → ℕ → ℕ → System
initial strategy timeout deadline now = record {
  table = record {
    strategy = strategy;
    lock_timeout = timeout;
    wait_deadline = deadline;
    locks = [];
  };
  now = now;
  held = λ _ _. none;
}

pub data Reach : System → Type 0 where
  begins :
      (strategy : LockStrategy) (timeout deadline now : ℕ)
      → Reach (initial strategy timeout deadline now)
  goes : {y z : System} → Reach y → Step y z → Reach z

abbrev lock_of : StateLock → String → String → ℕ → ResourceLock
lock_of table plan uri since = record {
  resource_uri = uri;
  plan_id = plan;
  acquired_at = since;
  lock_timeout = table.lock_timeout;
  released = false;
}

-- What a plan holds, and has not expired, is its lock in the table.
abbrev pub Owns : System → Type 0
Owns y =
    (plan uri : String) (since : ℕ)
    → y.held plan uri ≡ some since
    → y.now ≤ since + y.table.lock_timeout
    → dict_get y.table.locks uri ≡ some (lock_of y.table plan uri since)

owned-is_locked :
    (y : System)
    → Owns y
    → (plan uri : String) (since : ℕ) → y.held plan uri ≡ some since
    → y.now ≤ since + y.table.lock_timeout
    → is_locked y.now y.table uri ≡ true
unfolding is_locked
owned-is_locked y owns plan uri since h fresh =
    ap (active y.now) (owns plan uri since h fresh) ∙ ground arith

grant-Owns :
    (y : System) (plan uri : String)
    → Owns y
    → is_locked y.now y.table uri ≡ false
    → Owns (record y {
      table = grant y.now y.table uri plan;
      held = mark y.held plan uri (some y.now);
    })
grant-Owns y plan uri owns free p u since h fresh =
    let read = dict_get-dict_set y.table.locks uri u (lock_of y.table plan uri y.now) in
    elim (Bool-cases (uri == u)) [
      | inr other ↦
          read
          ∙ rw other (
              owns p u since (ground (arith, h, string_eq.beq_iff u uri, string_eq.beq_iff uri u))
                fresh)
      | inl same ↦
          let here : uri ≡ u = ==→≡ uri u same in
          elim (Bool-cases (p == plan)) [
            | inl mine ↦
                let me : p ≡ plan = ==→≡ p plan mine in
                let when : y.now ≡ since = ground (arith, h, string_eq.beq_iff u uri) in
                read ∙ rw (same, me, ← here, when) refl
            | inr theirs ↦
                let kept : y.held p u ≡ some since = ground (arith, h) in
                absurd (
                  ground (
                    arith,
                    free,
                    ap (is_locked y.now y.table) here,
                    owned-is_locked y owns p u since kept fresh,
                  ))
          ]
    ]

get-del :
    (m : Dict String ResourceLock) (k j : String)
    → (j == k) ≡ false
    → dict_get (dict_del m k) j ≡ dict_get m j
get-del [] k j h = refl
get-del ((i, l) ∷ m) k j h =
    ground (arith, get-del m k j, string_eq.beq_iff i k, string_eq.beq_iff i j)

plan_in : Option ResourceLock → String
plan_in none = ""
plan_in (some l) = l.plan_id

release-Owns :
    (y : System) (uri : String)
    → Owns y
    → Owns (record y { table = release y.table uri; held = unmark y.held uri })
unfolding release
release-Owns y uri owns p u since h fresh = elim (Bool-cases (u == uri)) [
  | inr other ↦ get-del y.table.locks uri u other ∙ owns p u since (rw other at h) fresh
  | inl same ↦ let nobody : none ≡ some since = rw same at h in cc
]

not_granted :
    (strategy : LockStrategy) {t : StateLock} {A : Type 0} → at_conflict strategy ≡ granted t → A
not_granted fail_fast h = cc
not_granted escalate h = cc
not_granted wait h = cc

granted_eq : (s t : StateLock) → granted s ≡ granted t → s ≡ t
granted_eq s t h = ground (arith, h)

some_eq : (s t : StateLock) → some s ≡ some t → s ≡ t
some_eq s t h = ground (arith, h)

first_try-free :
    (now : ℕ) (table t : StateLock) (uri plan : String)
    → first_try now table uri plan ≡ granted t
    → (is_locked now table uri ≡ false) × (grant now table uri plan ≡ t)
unfolding first_try
first_try-free now table t uri plan h = elim (Bool-cases (is_locked now table uri)) [
  | inl busy ↦ not_granted table.strategy (rw busy at h)
  | inr free ↦ (free, granted_eq _ t (rw free at h))
]

poll-free :
    (now : ℕ) (table t : StateLock) (uri plan : String)
    → poll now table uri plan ≡ some t
    → (is_locked now table uri ≡ false) × (grant now table uri plan ≡ t)
unfolding poll
poll-free now table t uri plan h = elim (Bool-cases (is_locked now table uri)) [
  | inl busy ↦ let refused : none ≡ some t = rw busy at h in cc
  | inr free ↦ (free, some_eq _ t (rw free at h))
]

Step-Owns : {y z : System} → Step y z → Owns y → Owns z
Step-Owns {y} (passes t later) owns = λ p u since h fresh. owns p u since h (omega arith)
Step-Owns {y} (takes plan uri {t} taken) owns =
    let (free, same) = first_try-free y.now y.table t uri plan taken in
    subst (λ z. Owns (record y { table = z; held = mark y.held plan uri (some y.now) })) same
      (grant-Owns y plan uri owns free)
Step-Owns {y} (polls plan uri {t} taken) owns =
    let (free, same) = poll-free y.now y.table t uri plan taken in
    subst (λ z. Owns (record y { table = z; held = mark y.held plan uri (some y.now) })) same
      (grant-Owns y plan uri owns free)
Step-Owns {y} (releases uri) owns = release-Owns y uri owns

-- What a plan holds and has not expired is its lock in the table, in every system that can be reached.
pub Reach-Owns : {y : System} → Reach y → Owns y
Reach-Owns (begins strategy timeout deadline now) = λ p u since h fresh. cc
Reach-Owns (goes reached step) = Step-Owns step (Reach-Owns reached)

-- Whatever plans take, poll and release, two plans that were each granted one resource are the same
-- plan, where neither grant has expired and nobody has released the resource since, and where the clock
-- does not go back.
pub Reach-exclusive :
    {y : System} (p q uri : String) (s t : ℕ)
    → Reach y
    → y.held p uri ≡ some s
    → y.now ≤ s + y.table.lock_timeout
    → y.held q uri ≡ some t
    → y.now ≤ t + y.table.lock_timeout
    → p ≡ q
unfolding plan_in
Reach-exclusive p q uri s t reached h live k fresh =
    let owns = Reach-Owns reached in ap plan_in (sym (owns p uri s h live) ∙ owns q uri t k fresh)
