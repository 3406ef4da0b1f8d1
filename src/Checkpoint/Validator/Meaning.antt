-- ===== src/Checkpoint/Validator/Meaning.antt =====
-- What the tests of the validator on effects and times mean, without the tests.
use tsagent.Prelude.{
  String, ℕ, ◌<◌, ◌≡◌, ◌≢◌, ◌⊎◌, inl, inr, refl, Bool, true, false, ◌&&◌, Option, none, some, List,
  [], ◌∷◌, ◌==◌, arith, eq_iff, ltb, Option-cases, Bool-cases,
}
use tsagent.Prelude.Lists.{All}
use tsagent.Prelude.Text.{is_empty}
use tsagent.Platform.{Platform, Timestamp}
use tsagent.Checkpoint.Codes.{
  SideEffectState, committed, nothing, not_started, failed_before_commit, compensated,
}
use tsagent.Checkpoint.Contracts.{TaskEffectRecord}
use tsagent.Checkpoint.Validator.Guards.{read_time, is_fresh, later_than, fresh}
use tsagent.Checkpoint.Validator.Effects.{
  is_unknown_effect, blocks_replay, timestamp_is_fresh, both_aware_later,
}

-- It is known whether the effect happened.
pub data Settled : SideEffectState → Type 0 where
  is_nothing : Settled nothing
  is_not_started : Settled not_started
  is_committed : Settled committed
  is_failed : Settled failed_before_commit
  is_compensated : Settled compensated

-- It is known that the effect is not there.
pub data Absent : SideEffectState → Type 0 where
  has_nothing : Absent nothing
  has_not_started : Absent not_started
  has_failed : Absent failed_before_commit
  has_compensated : Absent compensated

pub is_unknown_effect-Settled : (s : SideEffectState) → is_unknown_effect s ≡ false → Settled s
is_unknown_effect-Settled nothing h = is_nothing
is_unknown_effect-Settled not_started h = is_not_started
is_unknown_effect-Settled committed h = is_committed
is_unknown_effect-Settled failed_before_commit h = is_failed
is_unknown_effect-Settled compensated h = is_compensated
is_unknown_effect-Settled _ h = cc

pub blocks_replay-Absent : (s : SideEffectState) → blocks_replay s ≡ false → Absent s
blocks_replay-Absent nothing h = has_nothing
blocks_replay-Absent not_started h = has_not_started
blocks_replay-Absent failed_before_commit h = has_failed
blocks_replay-Absent compensated h = has_compensated
blocks_replay-Absent _ h = cc

pub All-Settled :
    (rs : List TaskEffectRecord)
    → All (λ r. is_unknown_effect r.effect_state ≡ false) rs
    → All (λ r. Settled r.effect_state) rs
All-Settled [] h = tt
All-Settled (r ∷ rs) (h, hs) = (is_unknown_effect-Settled r.effect_state h, All-Settled rs hs)

elsewhere :
    (task id : String) (s : SideEffectState)
    → (task == id && blocks_replay s) ≡ false
    → (task ≢ id) ⊎ (blocks_replay s ≡ false)
elsewhere task id s h = ground (arith, eq_iff task id)

-- Each effect belongs to another task than `id`, or is absent.
pub All-Absent :
    (id : String) (rs : List TaskEffectRecord)
    → All (λ r. (r.task_id == id && blocks_replay r.effect_state) ≡ false) rs
    → All (λ r. (r.task_id ≢ id) ⊎ Absent r.effect_state) rs
All-Absent id [] h = tt
All-Absent id (r ∷ rs) (h, hs) =
    (either (elsewhere r.task_id id r.effect_state h), All-Absent id rs hs)
  where
    either :
        (r.task_id ≢ id) ⊎ (blocks_replay r.effect_state ≡ false)
        → (r.task_id ≢ id) ⊎ Absent r.effect_state
    either (inl n) = inl n
    either (inr b) = inr (blocks_replay-Absent r.effect_state b)

-- Two texts of times with a zone, the second one later.
pub record Later (p : Platform) (before after : String) : Type 0 where
  pub first : Timestamp
  pub second : Timestamp
  pub first_read : read_time p before ≡ some first
  pub second_read : read_time p after ≡ some second
  pub first_aware : first.aware ≡ true
  pub second_aware : second.aware ≡ true
  pub order : first.instant < second.instant

-- A text of a time with a zone.
pub record HasTime (p : Platform) (text : String) : Type 0 where
  pub time : Timestamp
  pub is_read : read_time p text ≡ some time
  pub aware : time.aware ≡ true

ltb-lt : (a b : ℕ) → ltb a b ≡ true → a < b
ltb-lt a b h = ground arith

both_true : (a b : Bool) → (a && b) ≡ true → (a ≡ true) × (b ≡ true)
both_true a b h = ground arith

both_read :
    (p : Platform) (before after : String) (first second : Timestamp)
    → read_time p before ≡ some first
    → read_time p after ≡ some second
    → second.aware ≡ true
    → (first.aware && ltb first.instant second.instant) ≡ true
    → Later p before after
both_read p before after first second f s a h = record {
  first = first;
  second = second;
  first_read = f;
  second_read = s;
  first_aware = (both_true _ _ h).0;
  second_aware = a;
  order = ltb-lt first.instant second.instant (both_true _ _ h).1;
}

pub timestamp_is_fresh-Later :
    (p : Platform) (checked updated : String)
    → timestamp_is_fresh p checked updated ≡ true
    → Later p updated checked
unfolding timestamp_is_fresh
timestamp_is_fresh-Later p checked updated h = elim (Option-cases (read_time p checked)) [
  | inl e ↦ cc (rw (e, both_aware_later) at h)
  | inr (t, e) ↦ elim (Option-cases (read_time p updated)) [
    | inl k ↦ cc (rw (e, k, both_aware_later) at h)
    | inr (s, k) ↦ go t s e k (rw (e, k, both_aware_later) at h)
  ]
]
  where
    go :
        (t s : Timestamp)
        → read_time p checked ≡ some t
        → read_time p updated ≡ some s
        → (t.aware && (s.aware && ltb s.instant t.instant)) ≡ true
        → Later p updated checked
    go t s e k q =
        both_read p updated checked s t k e
          (both_true t.aware (s.aware && ltb s.instant t.instant) q).0
          (both_true t.aware (s.aware && ltb s.instant t.instant) q).1

-- The observation has a time, which is later than the one the guard has, if it has one.
abbrev pub CheckedAfter : Platform → String → String → Type 0
CheckedAfter p checked previous =
    ((is_empty previous ≡ true) × HasTime p checked) ⊎ Later p previous checked

after_previous :
    (p : Platform) (checked previous : String) (t : Timestamp) (o : Option Timestamp)
    → read_time p checked ≡ some t
    → read_time p previous ≡ o
    → (t.aware && later_than o t) ≡ true
    → Later p previous checked
after_previous p checked previous t none e k h = cc ((both_true t.aware false h).1)
after_previous p checked previous t (some s) e k h =
    both_read p previous checked s t k e (both_true t.aware _ h).0 (both_true t.aware _ h).1

fresh-CheckedAfter :
    (p : Platform) (checked previous : String) (t : Timestamp)
    → read_time p checked ≡ some t
    → fresh p (some t) previous ≡ true
    → CheckedAfter p checked previous
fresh-CheckedAfter p checked previous t e h = elim (Bool-cases (is_empty previous)) [
  | inl q ↦ inl (q, record { time = t; is_read = e; aware = rw (fresh, q) at h })
  | inr q ↦
      inr (after_previous p checked previous t (read_time p previous) e refl (rw (fresh, q) at h))
]

pub is_fresh-CheckedAfter :
    (p : Platform) (checked previous : String)
    → is_fresh p checked previous ≡ true
    → CheckedAfter p checked previous
unfolding is_fresh
is_fresh-CheckedAfter p checked previous h = elim (Option-cases (read_time p checked)) [
  | inl e ↦ cc (rw (e, fresh) at h)
  | inr (t, e) ↦ fresh-CheckedAfter p checked previous t e (rw e at h)
]
