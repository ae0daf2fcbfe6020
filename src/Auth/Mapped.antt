-- ===== src/Auth/Mapped.antt =====
-- services/auth-service/internal/store/postgres/store.go: the transaction of `createMappedUser`.
use qms.Base.{ℕ, String, true, none, ◌&&◌, ◌=?◌, find}
use qms.Queue.Models.{no_rows}
use qms.Queue.Db.{RoleRow}
use qms.Queue.Tx.{
  Platform, Tx, pure, ◌>>=◌, ◌>>◌, or_raise, query, statement, new_uuid, Answer, answered,
}
use qms.Auth.Rows.{User, insert_user, insert_mapping}

module _ {B : Type 0} (P : Platform B) where
  -- The transaction began at `began`, which `NOW()` is throughout it.
  unfoldable pub insert_mapped : String → String → String → String → ℕ → Tx B (Answer User)
  insert_mapped tenant_id provider subject email began = do
    found ←
        query P λ d. find (λ (r : RoleRow). r.tenant_id =? tenant_id && r.name =? "agent") d.roles
    role ← or_raise found no_rows
    user_id ← new_uuid P
    statement P λ t d.
        insert_user
          (record {
            user_id = user_id;
            tenant_id = tenant_id;
            role_id = role.role_id;
            email = email;
            password_hash = "SSO";
            active = true;
            created_at = began;
          })
          d
    mapping_id ← new_uuid P
    statement P λ t d.
        insert_mapping
          (record {
            mapping_id = mapping_id;
            tenant_id = tenant_id;
            provider = provider;
            subject = subject;
            user_id = user_id;
          })
          d
    pure (
        answered (record {
          user_id = user_id;
          tenant_id = tenant_id;
          role_name = "agent";
          email = email;
          created = none;
        }))
