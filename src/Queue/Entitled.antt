-- ===== src/Queue/Entitled.antt =====
-- store/postgres/store.go: the sessions that are live, and the lists of a user, said of the tables.
use mathlib.Core.List.{Memᴰ}
use mathlib.Core.List.Memᴰ.{cases_cons, not-nil}
use qms.Base.{
  ℕ, ◌<◌, String, ◌&&◌, some, List, [], ◌∷◌, map, ◌=?◌, ◌≡◌, refl, sym, ap, maybe, ltb, find,
  select, find-mem, mem-select, select-mem, and_true, eq_iff, inl, inr, Option-cases, arith,
}
use qms.Queue.Db.{Db, SessionRow, UserRow, RoleRow, AccessRow}
use qms.Queue.Accounts.{Session, find_session, granted_to}

-- The session is that of a row which ends after the given time, of a user, with the user's tenant
-- and the name of the user's role.
pub record IsLive {B : Type 0} (d : Db B) (id : String) (time : ℕ) (s : Session) : Type 0 where
  pub row : SessionRow
  pub user : UserRow
  pub role : RoleRow
  pub is_row : Memᴰ row d.sessions
  pub is_named : row.session_id ≡ id
  pub is_running : time < row.expires_at
  pub is_user : Memᴰ user d.users
  pub is_users : row.user_id ≡ user.user_id
  pub is_role : Memᴰ role d.roles
  pub is_users_role : user.role_id ≡ role.role_id
  pub is_session : s ≡ record {
    session_id = row.session_id;
    user_id = row.user_id;
    tenant_id = user.tenant_id;
    role = role.name;
    expires_at = row.expires_at;
  }

-- The list holds what the rows grant to the user, and nothing else.
pub record IsListOf (user_id : String) (rows : List AccessRow) (list : List String) : Type 0 where
  pub is_granted :
      (id : String)
      → Memᴰ id list
      → (a : AccessRow) × Memᴰ a rows × (a.user_id ≡ user_id) × (a.granted ≡ id)
  pub is_listed : (a : AccessRow) → Memᴰ a rows → a.user_id ≡ user_id → Memᴰ a.granted list

map-mem :
    (rows : List AccessRow) (id : String)
    → Memᴰ id (map (λ (a : AccessRow). a.granted) rows)
    → (a : AccessRow) × Memᴰ a rows × (a.granted ≡ id)
map-mem [] id m = absurd (not-nil m)
map-mem (x ∷ xs) id m = elim (cases_cons m) [
  | inl e ↦ (x, Memᴰ.head refl, sym e)
  | inr k ↦ let (a, n, e) = map-mem xs id k in (a, Memᴰ.tail n, e)
]

mem-map :
    (rows : List AccessRow) (a : AccessRow)
    → Memᴰ a rows
    → Memᴰ a.granted (map (λ (x : AccessRow). x.granted) rows)
mem-map [] a m = absurd (not-nil m)
mem-map (x ∷ xs) a m = elim (cases_cons m) [
  | inl e ↦ Memᴰ.head (ap (λ (y : AccessRow). y.granted) e)
  | inr k ↦ Memᴰ.tail (mem-map xs a k)
]

pub granted_to-IsListOf :
    (user_id : String) (rows : List AccessRow) → IsListOf user_id rows (granted_to user_id rows)
unfolding granted_to
granted_to-IsListOf user_id rows =
    let own = λ (a : AccessRow). a.user_id =? user_id in
    record {
      is_granted = λ id m.
          let (a, n, e) = map-mem (select own rows) id m in
          let (k, t) = mem-select own a rows n in (a, k, (eq_iff a.user_id user_id).0 t, e);
      is_listed = λ a m e.
          mem-map (select own rows) a (select-mem own a rows m ((eq_iff a.user_id user_id).1 e));
    }

pub find_session-IsLive :
    {B : Type 0} (d : Db B) (id : String) (time : ℕ) (s : Session)
    → find_session id time d ≡ some s
    → IsLive d id time s
unfolding find_session maybe
find_session-IsLive d id time s h =
    let live = λ (x : SessionRow). x.session_id =? id && ltb time x.expires_at in
    elim (Option-cases (find live d.sessions)) [
      | inl e ↦ absurd (cc (rw e at h))
      | inr (row, e) ↦
          let own = λ (u : UserRow). u.user_id =? row.user_id in
          let h1 = rw e at h in
          elim (Option-cases (find own d.users)) [
            | inl f ↦ absurd (cc (rw f at h1))
            | inr (user, f) ↦
                let h2 = rw f at h1 in
                let has = λ (r : RoleRow). r.role_id =? user.role_id in
                elim (Option-cases (find has d.roles)) [
                  | inl g ↦ absurd (cc (rw g at h2))
                  | inr (role, g) ↦
                      let h3 = rw g at h2 in
                      let (a, p) = find-mem live d.sessions row e in
                      let (b, q) = find-mem own d.users user f in
                      let (c, r) = find-mem has d.roles role g in
                      let (named, runs) = and_true (row.session_id =? id) _ p in
                      record {
                        row = row;
                        user = user;
                        role = role;
                        is_row = a;
                        is_named = (eq_iff row.session_id id).0 named;
                        is_running = ground (arith, runs);
                        is_user = b;
                        is_users = sym ((eq_iff user.user_id row.user_id).0 q);
                        is_role = c;
                        is_users_role = sym ((eq_iff role.role_id user.role_id).0 r);
                        is_session = cc (h3);
                      }
                ]
          ]
    ]
