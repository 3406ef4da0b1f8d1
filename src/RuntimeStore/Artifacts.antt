-- ===== src/RuntimeStore/Artifacts.antt =====
-- agent/runtime_store/sqlite.py: the output and the artifacts that a change of status stores.
use tsagent.Prelude.{
  ℕ, String, Bool, false, Option, none, some, List, [], ◌∷◌, ◌++◌, not, ◌==◌, ◌&&◌, ◌||◌, nat_eq,
  if◌then◌else◌,
}
use tsagent.Prelude.Lists.{any}
use tsagent.Prelude.Result.{Result, ok, err, raise_if, ◌>>=◌}
use tsagent.Prelude.Text.{is_blank, is_empty}
use tsagent.Checkpoint.Json.{Items, array, text, nil, cons}
use tsagent.RuntimeStore.Errors.{StoreErrorCode, invalid_argument, artifact_digest_mismatch}
use tsagent.RuntimeStore.Sql.{fetch_one, update_where, upsert}
use tsagent.RuntimeStore.Tables.{Database, ArtifactRow, ArtifactCommitFact, Host, stored}
use tsagent.RuntimeStore.Transaction.{canonical_json}

-- `run_output`: a sequence of identities that is no list, tuple or set is `none`.
pub record RunOutput : Type 0 where
  pub text : String
  pub evidence_ids : Option (List String)
  pub artifact_ids : Option (List String)
  pub created_at : String

abbrev text_items : List String → Items
text_items [] = nil
text_items (x ∷ xs) = cons (text x) (text_items xs)

abbrev json_of : Host → Option (List String) → Result StoreErrorCode String
json_of host none = err invalid_argument
json_of host (some ids) = canonical_json host (array (text_items ids))

abbrev store_output :
    Host → String → String → String → ℕ → RunOutput → Database → Result StoreErrorCode Database
store_output host tenant session run revision output db =
    json_of host output.evidence_ids >>= λ evidence.
    json_of host output.artifact_ids >>= λ artifacts. ok (record db {
      run_outputs =
          upsert (λ o. o.tenant_id == tenant && o.run_id == run && nat_eq o.revision revision)
            (record {
              tenant_id = tenant;
              session_id = session;
              run_id = run;
              revision = revision;
              text = output.text;
              evidence_ids_json = evidence;
              artifact_ids_json = artifacts;
              created_at =
                  if is_empty output.created_at then host.now stored else output.created_at;
            })
            db.run_outputs;
    })

-- `_insert_run_output_tx`, for no output too
unfoldable pub insert_run_output :
    Host
    → String
    → String
    → String
    → ℕ
    → Option RunOutput
    → Database
    → Result StoreErrorCode Database
insert_run_output host tenant session run revision none db = ok db
insert_run_output host tenant session run revision (some output) db =
    if is_blank output.text then ok db else store_output host tenant session run revision output db

abbrev artifact_of : String → String → String → ArtifactRow → Bool
artifact_of tenant run id a = a.tenant_id == tenant && a.run_id == run && a.fact.artifact_id == id

-- Whether the stored artifact has another digest or reference
abbrev contradicts : ArtifactCommitFact → Option ArtifactRow → Bool
contradicts fact none = false
contradicts fact (some a) =
    not (a.fact.digest == fact.digest) || not (a.fact.reference == fact.reference)

-- one turn of the loop
unfoldable pub record_artifact :
    Host
    → String
    → String
    → String
    → ℕ
    → String
    → ArtifactCommitFact
    → List ArtifactRow
    → List ArtifactRow
record_artifact host tenant session run revision request fact rows =
    if any (artifact_of tenant run fact.artifact_id) rows
    then update_where (artifact_of tenant run fact.artifact_id)
        (λ a. record a {
          fact = record fact { digest = a.fact.digest; reference = a.fact.reference };
          last_updated_revision = revision;
          request_id = request;
          updated_at = host.now stored;
        })
        rows
    else rows
      ++ record {
        tenant_id = tenant;
        session_id = session;
        run_id = run;
        fact = fact;
        created_revision = revision;
        last_updated_revision = revision;
        request_id = request;
        updated_at = host.now stored;
      }
        ∷ []

-- `_insert_artifact_facts_tx`
unfoldable pub insert_artifact_facts :
    Host
    → String
    → String
    → String
    → ℕ
    → String
    → List ArtifactCommitFact
    → Database
    → Result StoreErrorCode Database
insert_artifact_facts host tenant session run revision request [] db = ok db
insert_artifact_facts host tenant session run revision request (fact ∷ facts) db =
    raise_if
      (contradicts fact (fetch_one (artifact_of tenant run fact.artifact_id) db.artifact_metadata))
      artifact_digest_mismatch
      (insert_artifact_facts host tenant session run revision request facts (record db {
        artifact_metadata =
            record_artifact host tenant session run revision request fact db.artifact_metadata;
      }))
