-- ===== src/Interruption/Contracts.antt =====
-- The data classes of agent/interruption/contracts.py, with what their constructors check.
use tsagent.Prelude.{
  String, ◌≡◌, inl, inr, refl, Bool, true, false, not, ◌||◌, Option, List, [], ◌∷◌, arith, is_some,
  if◌then◌else◌, Bool-cases,
}
use tsagent.Prelude.Int.{ℤ, pos, is_negative}
use tsagent.Prelude.Lists.{All}
use tsagent.Prelude.Result.{Result, ok, err, raise_if, raise_if-eq-ok, ok-injective}
use tsagent.Prelude.Text.{is_blank}
use tsagent.Checkpoint.Json.{Fields, end}
use tsagent.Interruption.Codes.{
  InterruptionReason, InterruptionAction, InterruptionPhase, InterruptionResultStatus, user_cancel,
  requested, delegate_to_decision,
}

-- One constructor for each `raise`; `blank` has the label of the field.
pub data InterruptionError : Type 0 where
  blank : String → InterruptionError
  negative_revision not_user_cancel : InterruptionError
  delegated_policy decision_owned_policy : InterruptionError

pub record CancelRunRequest : Type 0 where
  pub tenant_id : String
  pub user_id : String
  pub session_id : String
  pub run_id : String
  pub request_id : String
  pub requested_by : String
  pub reason : InterruptionReason

pub record CancellationIntent : Type 0 where
  pub tenant_id : String
  pub user_id : String
  pub session_id : String
  pub run_id : String
  pub request_id : String
  pub requested_at : String
  pub requested_by : String
  pub reason : InterruptionReason
  pub revision : ℤ
  pub phase : InterruptionPhase
  pub details : Fields

pub record InterruptionPolicy : Type 0 where
  pub reason : InterruptionReason
  pub action : InterruptionAction
  pub resulting_status : Option InterruptionResultStatus
  pub resume_allowed : Bool
  pub decision_owned : Bool

-- `for label in (...): _required(...)`, and then the rest
unfoldable pub required :
    {A : Type 0} → List (String × String) → Result InterruptionError A → Result InterruptionError A
required [] k = k
required ((label, value) ∷ rest) k =
    let behind = required rest k in if is_blank value then err (blank label) else behind

abbrev pub request_texts : CancelRunRequest → List (String × String)
request_texts r =
    ("tenant_id", r.tenant_id)
    ∷ ("user_id", r.user_id)
    ∷ ("session_id", r.session_id)
    ∷ ("run_id", r.run_id)
    ∷ ("request_id", r.request_id)
    ∷ ("requested_by", r.requested_by)
    ∷ []

abbrev pub is_user_cancel : InterruptionReason → Bool
is_user_cancel user_cancel = true
is_user_cancel _ = false

-- `CancelRunRequest.__post_init__`
unfoldable pub create_request : CancelRunRequest → Result InterruptionError CancelRunRequest
unfolding required
create_request r =
    required (request_texts r) (raise_if (not (is_user_cancel r.reason)) not_user_cancel (ok r))

abbrev pub intent_texts : CancellationIntent → List (String × String)
intent_texts i =
    ("tenant_id", i.tenant_id)
    ∷ ("user_id", i.user_id)
    ∷ ("session_id", i.session_id)
    ∷ ("run_id", i.run_id)
    ∷ ("request_id", i.request_id)
    ∷ ("requested_at", i.requested_at)
    ∷ ("requested_by", i.requested_by)
    ∷ []

-- `CancellationIntent.__post_init__`
unfoldable pub create_intent : CancellationIntent → Result InterruptionError CancellationIntent
unfolding required
create_intent i =
    required (intent_texts i) (raise_if (is_negative i.revision) negative_revision (ok i))

abbrev pub is_delegated : InterruptionAction → Bool
is_delegated delegate_to_decision = true
is_delegated _ = false

-- `InterruptionPolicy.__post_init__`
unfoldable pub create_policy : InterruptionPolicy → Result InterruptionError InterruptionPolicy
create_policy q =
    if is_delegated q.action
    then raise_if (not q.decision_owned || is_some q.resulting_status) delegated_policy (ok q)
    else raise_if q.decision_owned decision_owned_policy (ok q)

-- `CancellationCoordinator.request_cancel`, up to the call of the store; `now` is the clock's text.
unfoldable pub intent_of_request : CancelRunRequest → String → CancellationIntent
intent_of_request r now = record {
  tenant_id = r.tenant_id;
  user_id = r.user_id;
  session_id = r.session_id;
  run_id = r.run_id;
  request_id = r.request_id;
  requested_at = now;
  requested_by = r.requested_by;
  reason = r.reason;
  revision = pos 0;
  phase = requested;
  details = end;
}

abbrev Filled : List (String × String) → Type 0
Filled texts = All (λ t. is_blank t.1 ≡ false) texts

required-ok :
    {A : Type 0} (texts : List (String × String)) (k : Result InterruptionError A) {a : A}
    → required texts k ≡ ok a
    → Filled texts × (k ≡ ok a)
unfolding required
required-ok [] k h = (tt, h)
required-ok ((label, value) ∷ rest) k h = elim (Bool-cases (is_blank value)) [
  | inl e ↦ cc (rw e at h)
  | inr e ↦ let (f, g) = required-ok rest k (rw e at h) in ((e, f), g)
]

required-passed :
    {A : Type 0} (texts : List (String × String)) (k : Result InterruptionError A)
    → Filled texts
    → required texts k ≡ k
unfolding required
required-passed [] k f = refl
required-passed ((label, value) ∷ rest) k (e, f) = rw e (required-passed rest k f)

user_of : (x : InterruptionReason) → not (is_user_cancel x) ≡ false → x ≡ user_cancel
user_of x u = ground arith

accepted_texts :
    (r : CancelRunRequest) (now : String)
    → Filled (request_texts r)
    → is_blank now ≡ false
    → Filled (intent_texts (intent_of_request r now))
unfolding intent_of_request
accepted_texts r now (t, (u, (s, (n, (i, (b, _)))))) k = (t, (u, (s, (n, (i, (k, (b, tt)))))))

-- A cancel request that was accepted has no blank identity and is a user's; with a clock that gives
-- a text, the intent that the coordinator builds from it is always accepted.
pub create_request-create_intent :
    (r q : CancelRunRequest) (now : String)
    → create_request r ≡ ok q
    → is_blank now ≡ false
    → (create_intent (intent_of_request q now) ≡ ok (intent_of_request q now))
      × (q.reason ≡ user_cancel)
      × (is_blank q.tenant_id ≡ false)
      × (is_blank q.user_id ≡ false)
      × (is_blank q.session_id ≡ false)
      × (is_blank q.run_id ≡ false)
      × (is_blank q.request_id ≡ false)
      × (is_blank q.requested_by ≡ false)
unfolding create_request create_intent intent_of_request
create_request-create_intent r q now h k =
    let (f, g) = required-ok (request_texts r) _ h in
    let (t, (i, (n, (x, (y, (z, _)))))) = f in
    let (u, e) = raise_if-eq-ok _ _ _ g in
    let same : r ≡ q = ok-injective e in
    rw (← same) (
      required-passed (intent_texts (intent_of_request r now)) _ (accepted_texts r now f k),
      user_of r.reason u,
      t,
      i,
      n,
      x,
      y,
      z,
    )
