-- ===== src/Retention/Policy.antt =====
-- crates/televault-backup/src/retention/policy.rs: the policy of a profile, its check, and its row
-- in the database (`RetentionPolicyRecord` of crates/televault-db/src/models.rs).
use televault.Prelude.{
  ℕ, ◌*◌, Bool, true, false, not, ◌&&◌, ◌≡◌, ◌≢◌, ◌↔◌, ◌⊎◌, Option, none, some, is_none, Text, text,
  ◌++◌, Result, ok, ◌>>◌, guard, ◌==◌, arith, refl,
}

pub record RetentionPolicy : Type 0 where
  pub profile_id : Text
  pub keep_latest_n : Option ℕ  -- u32
  pub keep_newer_than_secs : Option ℕ  -- u64
  pub keep_latest_successful : Bool
  pub keep_latest_always : Bool
  pub prune_failed : Bool
  pub prune_empty : Bool
  pub enabled : Bool

-- `RetentionPolicy::default_for_profile`.
unfoldable pub default_for_profile : Text → RetentionPolicy
default_for_profile profile_id = record {
  profile_id = profile_id;
  keep_latest_n = some 10;
  keep_newer_than_secs = some (30 * 86400);
  keep_latest_successful = true;
  keep_latest_always = true;
  prune_failed = false;
  prune_empty = false;
  enabled = true;
}

-- `RetentionPolicy::new`.
unfoldable pub new_policy : Text → RetentionPolicy
new_policy profile_id = record {
  profile_id = profile_id;
  keep_latest_n = none;
  keep_newer_than_secs = none;
  keep_latest_successful = true;
  keep_latest_always = true;
  prune_failed = false;
  prune_empty = false;
  enabled = true;
}

-- `RetentionError` of crates/televault-backup/src/error.rs.
pub data RetentionError : Type 0 where
  profile_not_found : Text → RetentionError
  invalid_policy : Text → RetentionError
  profile_busy : Text → RetentionError
  snapshot_protected : (id reason : Text) → RetentionError
  snapshot_not_found : Text → RetentionError
  database : Text → RetentionError
  cancelled : RetentionError
  internal : Text → RetentionError

abbrev positive : Option ℕ → Text → Result RetentionError (Unit {0})
positive none message = ok tt
positive (some n) message = guard (not (n == 0)) (invalid_policy message)

-- `RetentionPolicy::validate`.
unfoldable pub validate_policy : RetentionPolicy → Result RetentionError (Unit {0})
validate_policy p = do
  positive p.keep_latest_n (text "keep_latest_n must be greater than zero")
  positive p.keep_newer_than_secs (text "keep_newer_than_secs must be greater than zero")
  guard
      (not (
        p.enabled
        && (is_none p.keep_latest_n
            && (is_none p.keep_newer_than_secs
                && (not p.keep_latest_successful && not p.keep_latest_always)))))
      (invalid_policy (
        text
          "Policy must configure at least one preservation rule (keep_latest_n, keep_newer_than_secs, keep_latest_successful, or keep_latest_always)"))

pub record RetentionPolicyRecord : Type 0 where
  pub policy_id : Text
  pub profile_id : Text
  pub keep_latest_n : Option ℕ
  pub keep_newer_than_secs : Option ℕ
  pub keep_latest_successful : Bool
  pub keep_latest_always : Bool
  pub prune_failed : Bool
  pub prune_empty : Bool
  pub enabled : Bool
  pub created_at : Text
  pub updated_at : Text

-- `RetentionPolicy::to_db_record`.
unfoldable pub to_db_record : RetentionPolicy → Text → Text → RetentionPolicyRecord
to_db_record p created_at updated_at = record {
  policy_id = text "retpol-" ++ p.profile_id;
  profile_id = p.profile_id;
  keep_latest_n = p.keep_latest_n;
  keep_newer_than_secs = p.keep_newer_than_secs;
  keep_latest_successful = p.keep_latest_successful;
  keep_latest_always = p.keep_latest_always;
  prune_failed = p.prune_failed;
  prune_empty = p.prune_empty;
  enabled = p.enabled;
  created_at = created_at;
  updated_at = updated_at;
}

-- `RetentionPolicy::from_db_record`.
unfoldable pub from_db_record : RetentionPolicyRecord → RetentionPolicy
from_db_record r = record {
  profile_id = r.profile_id;
  keep_latest_n = r.keep_latest_n;
  keep_newer_than_secs = r.keep_newer_than_secs;
  keep_latest_successful = r.keep_latest_successful;
  keep_latest_always = r.keep_latest_always;
  prune_failed = r.prune_failed;
  prune_empty = r.prune_empty;
  enabled = r.enabled;
}

-- A policy that keeps something, by a limit that is not zero.
pub record IsValid (p : RetentionPolicy) : Type 0 where
  pub count_positive : p.keep_latest_n ≢ some 0
  pub age_positive : p.keep_newer_than_secs ≢ some 0
  pub preserves :
      (p.enabled ≡ false)
      ⊎ (p.keep_latest_n ≢ none)
      ⊎ (p.keep_newer_than_secs ≢ none)
      ⊎ (p.keep_latest_successful ≡ true)
      ⊎ (p.keep_latest_always ≡ true)

-- `validate` accepts a policy exactly if no limit that it sets is zero and, where it is enabled, at
-- least one rule preserves snapshots.
pub validate_policy_iff : (p : RetentionPolicy) → (validate_policy p ≡ ok tt) ↔ IsValid p
unfolding validate_policy
validate_policy_iff p = (λ h. ground arith, λ v. ground arith)

-- A policy comes back from its database row as it was.
pub policy_roundtrip :
    (p : RetentionPolicy) (created updated : Text)
    → from_db_record (to_db_record p created updated) ≡ p
unfolding from_db_record to_db_record
policy_roundtrip p created updated = refl
