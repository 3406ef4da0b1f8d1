-- ===== src/RuntimeStore/Logs/Untouched.antt =====
-- The statements and transactions that leave both logs as they are.
use tsagent.Prelude.{
  ℕ, String, Bool, Option, none, some, List, [], ◌∷◌, refl, arith, ltb, if◌then◌else◌,
}
use tsagent.Prelude.Int.{ℤ, pos}
use tsagent.Prelude.Ensures.{Ensures}
use tsagent.RuntimeStore.Tables.{Database, RunHead, ArtifactCommitFact, Host, checked}
use tsagent.RuntimeStore.Leases.{renew_worker_lease_tx, owner_renewal_tx, put_worker_lease}
use tsagent.RuntimeStore.Fences.{initialize_run_tx, grant_fence, insert_fence}
use tsagent.RuntimeStore.Handover.{release_fence_tx, closed_fences}
use tsagent.RuntimeStore.Artifacts.{
  RunOutput, insert_run_output, insert_artifact_facts, record_artifact,
}
use tsagent.RuntimeStore.Transitions.{TransitionCall, transition_writes}
use tsagent.RuntimeStore.Logs.{SameLogs}

pub insert_run_output-SameLogs :
    (host : Host) (t x r : String) (n : ℕ) (o : Option RunOutput) (db : Database)
    → Ensures (SameLogs db) (insert_run_output host t x r n o db)
unfolding insert_run_output
insert_run_output-SameLogs host t x r n none db = (refl, refl, refl)
insert_run_output-SameLogs host t x r n (some o) db = ground arith

pub insert_artifact_facts-SameLogs :
    (host : Host) (t x r : String) (n : ℕ) (q : String) (facts : List ArtifactCommitFact)
    (db : Database)
    → Ensures (SameLogs db) (insert_artifact_facts host t x r n q facts db)
unfolding insert_artifact_facts
insert_artifact_facts-SameLogs host t x r n q [] db = (refl, refl, refl)
insert_artifact_facts-SameLogs host t x r n q (fact ∷ facts) db = ground (
  arith,
  insert_artifact_facts-SameLogs host t x r n q facts
      (record db { artifact_metadata = record_artifact host t x r n q fact db.artifact_metadata }),
)

pub transition_writes-SameLogs :
    (host : Host) (c : TransitionCall) (row : RunHead) (db : Database)
    → SameLogs db (transition_writes host c row db)
transition_writes-SameLogs host c row db = ground arith

pub renew_worker_lease_tx-SameLogs :
    (host : Host) (t x r w : String) (n : ℤ) (db : Database)
    → Ensures (SameLogs db) (renew_worker_lease_tx host t x r w n db)
unfolding renew_worker_lease_tx
renew_worker_lease_tx-SameLogs host t x r w n db = ground arith

pub grant_fence-SameLogs :
    (host : Host) (g t x r w q : String) (l : Bool) (row : RunHead) (u : RunHead → Bool)
    (db : Database)
    → Ensures (λ y. SameLogs db y.0) (grant_fence host g t x r w q l row u db)
unfolding grant_fence insert_fence put_worker_lease
grant_fence-SameLogs host g t x r w q l row u db = ground arith

pub initialize_run_tx-SameLogs :
    (host : Host) (g t x r q u : String) (db : Database)
    → Ensures (λ y. SameLogs db y.0) (initialize_run_tx host g t x r q u db)
unfolding initialize_run_tx
initialize_run_tx-SameLogs host g t x r q u db = ground arith

pub release_fence_tx-SameLogs :
    (host : Host) (g t x r w : String) (n : ℤ) (q : String) (db : Database)
    → Ensures (λ y. SameLogs db y.0) (release_fence_tx host g t x r w n q db)
unfolding release_fence_tx
release_fence_tx-SameLogs host g t x r w n q db = ground arith

pub owner_renewal_tx-SameLogs :
    (host : Host) (g t x r w : String) (n : ℤ) (db : Database)
    → Ensures (λ y. SameLogs db y.0) (owner_renewal_tx host g t x r w n db)
unfolding owner_renewal_tx
owner_renewal_tx-SameLogs host g t x r w n db =
    ground (arith, renew_worker_lease_tx-SameLogs host t x r w n db)

pub closing :
    (host : Host) (t r : String) (row : RunHead) (db : Database)
    → SameLogs db (
        if ltb 0 row.current_fence_token
        then record db {
          run_fences =
              closed_fences t r (pos row.current_fence_token) (host.now checked) db.run_fences;
        }
        else db)
closing host t r row db = ground arith
