-- ===== src/Enforcement/Regained.antt =====
-- enforcement.py: `_undo` of a user's roles after `_perform`, on a tenant that keeps roles.
use v_cx_credit_guard.Prelude.{
  ◌≡◌, ◌⊎◌, inl, inr, refl, ap, ◌∙◌, sym, String, Bool, true, false, some, List, [], ◌∷◌, map,
  select, str_eq, Bool-cases,
}
use v_cx_credit_guard.Exec.{Exec, ok, pure, gets, ◌>>=◌}
use v_cx_credit_guard.Exec.Contracts.{then_returns}
use v_cx_credit_guard.Model.Limits.{RoleRef, UndoSnapshot, no_snapshot}
use v_cx_credit_guard.Model.Database.{World}
use v_cx_credit_guard.Checkmarx.{
  Remote, remote, fetch_user_client_roles, remove_user_client_roles, add_user_client_roles,
}
use v_cx_credit_guard.Enforcement.Perform.{
  is_ai_role, is_whole, sorted_set, client_uuid, snapshot_client_uuid, perform_user, undo_user,
}
use v_cx_credit_guard.Enforcement.Undone.{remote_returns}

abbrev pub Held : RoleRef → List RoleRef → Type 0
Held r [] = ⊥
Held r (x ∷ roles) = (x ≡ r) ⊎ Held r roles

-- The tenant keeps the roles of each user: a GET reads them, a DELETE takes the given ones away and
-- no others, a POST adds the given ones and keeps the others.
pub record KeepsRoles {T : Type 0} (api : Remote T) : Type 0 where
  pub read : T → String → String → List RoleRef
  pub removed : String → String → List RoleRef → T → T
  pub added : String → String → List RoleRef → T → T
  pub reads : (u c : String) (t : T) → api.get_role_mappings u c t ≡ (ok (read t u c), t)
  pub removes :
      (u c : String) (roles : List RoleRef) (t : T)
      → api.delete_role_mappings u c roles t ≡ (ok tt, removed u c roles t)
  pub adds :
      (u c : String) (roles : List RoleRef) (t : T)
      → api.post_role_mappings u c roles t ≡ (ok tt, added u c roles t)
  pub gone :
      (u c : String) (roles : List RoleRef) (t : T) (r : RoleRef)
      → Held r roles
      → ¬ Held r (read (removed u c roles t) u c)
  pub stays :
      (u c : String) (roles : List RoleRef) (t : T) (r : RoleRef)
      → Held r (read t u c)
      → Held r roles ⊎ Held r (read (removed u c roles t) u c)
  pub there :
      (u c : String) (roles : List RoleRef) (t : T) (r : RoleRef)
      → Held r roles
      → Held r (read (added u c roles t) u c)

pub Held-select :
    (p : RoleRef → Bool) (r : RoleRef) (roles : List RoleRef)
    → Held r roles
    → p r ≡ true
    → Held r (select p roles)
Held-select p r [] h e = h
Held-select p r (x ∷ roles) (inl same) e = let ex : p x ≡ true = ap p same ∙ e in rw ex (inl same)
Held-select p r (x ∷ roles) (inr h) e = elim (Bool-cases (p x)) [
  | inl chosen ↦ rw chosen (inr (Held-select p r roles h e))
  | inr left_out ↦ rw left_out (Held-select p r roles h e)
]

pub chosen_passes :
    (p : RoleRef → Bool) (r : RoleRef) (roles : List RoleRef) → Held r (select p roles) → p r ≡ true
chosen_passes p r [] h = absurd h
chosen_passes p r (x ∷ roles) h = elim (Bool-cases (p x)) [
  | inl chosen ↦ elim (rw chosen at h) [
    | inl same ↦ sym (ap p same) ∙ chosen
    | inr rest ↦ chosen_passes p r roles rest
  ]
  | inr left_out ↦ chosen_passes p r roles (rw left_out at h)
]

-- All AI roles are whole, so none is left out.
whole_roles :
    (roles : List RoleRef)
    → ((r : RoleRef) → Held r roles → is_ai_role r ≡ true → is_whole r ≡ true)
    → select is_whole (select is_ai_role roles) ≡ select is_ai_role roles
whole_roles [] h = refl
whole_roles (x ∷ roles) h =
    let rest = whole_roles roles (λ r held. h r (inr held)) in
    elim (Bool-cases (is_ai_role x)) [
      | inl ai ↦ rw ai (let whole = h x (inl refl) ai in rw whole (ap (λ l. x ∷ l) rest))
      | inr other ↦ rw other rest
    ]

module _ {T : Type 0} (api : Remote T) (tenant : KeepsRoles api) (user_id uuid : String)
    (w : World T) where
  abbrev held_at : List RoleRef
  held_at = tenant.read w.tenant user_id uuid

  -- No call is made for no roles.
  abbrev without : List RoleRef → World T
  without [] = w
  without (r ∷ roles) = record w { tenant = tenant.removed user_id uuid (r ∷ roles) w.tenant }

  abbrev with_added : List RoleRef → World T
  with_added [] = w
  with_added (r ∷ roles) = record w { tenant = tenant.added user_id uuid (r ∷ roles) w.tenant }

  client_known : w.resolver_uuid ≡ some uuid → client_uuid api w ≡ (ok uuid, w)
  unfolding client_uuid pure gets
  client_known cached = then_returns _ _ w.resolver_uuid w w _ refl (rw cached refl)

  roles_read : remote (fetch_user_client_roles api user_id uuid) w ≡ (ok held_at, w)
  unfolding fetch_user_client_roles
  roles_read = remote_returns _ _ w w.tenant (tenant.reads user_id uuid w.tenant)

  roles_removed :
      (roles : List RoleRef)
      → remote (remove_user_client_roles api user_id uuid roles) w ≡ (ok tt, without roles)
  unfolding remove_user_client_roles pure
  roles_removed [] = remote_returns (pure tt) tt w w.tenant refl
  roles_removed (r ∷ roles) =
      remote_returns _ tt w _ (tenant.removes user_id uuid (r ∷ roles) w.tenant)

  roles_added :
      (r : RoleRef) (roles : List RoleRef)
      → remote (add_user_client_roles api user_id uuid (r ∷ roles)) w
        ≡ (ok tt, with_added (r ∷ roles))
  unfolding add_user_client_roles
  roles_added r roles = remote_returns _ tt w _ (tenant.adds user_id uuid (r ∷ roles) w.tenant)

  -- The snapshot of roles that were read.
  abbrev snapshot_of : List RoleRef → UndoSnapshot
  snapshot_of current = record no_snapshot {
    client_uuid = some uuid;
    removed_roles = some (select is_ai_role current);
    roles_before = some (sorted_set (map (λ (r : RoleRef). r.name) current));
  }

  performs :
      w.resolver_uuid ≡ some uuid
      → perform_user api user_id w ≡ (ok (snapshot_of held_at), without (select is_ai_role held_at))
  unfolding perform_user pure
  performs cached = then_returns _ _ uuid w w _ (client_known cached) (
      then_returns _ _ held_at w w _ roles_read (
        then_returns _ _ tt w (without (select is_ai_role held_at)) _
          (roles_removed (select is_ai_role held_at)) refl))

  -- The two ways in which `_undo` goes on for a user.
  give_back : UndoSnapshot → List RoleRef → Exec (World T) Unit
  give_back s roles = elim roles [
    | [] ↦ pure tt
    | r ∷ rest ↦ do
      u ← snapshot_client_uuid api s
      remote (add_user_client_roles api user_id u (r ∷ rest))
  ]

  undoes_each :
      (s : UndoSnapshot) (roles : List RoleRef)
      → snapshot_client_uuid api s w ≡ (ok uuid, w)
      → give_back s roles w ≡ (ok tt, with_added roles)
  unfolding pure give_back
  undoes_each s [] known = refl
  undoes_each s (r ∷ rest) known = then_returns _ _ uuid w w _ known (roles_added r rest)

  undoes :
      (current : List RoleRef)
      → str_eq uuid "" ≡ false
      → select is_whole (select is_ai_role current) ≡ select is_ai_role current
      → undo_user api (snapshot_of current) user_id w
        ≡ (ok tt, with_added (select is_ai_role current))
  unfolding undo_user snapshot_client_uuid give_back pure
  undoes current named whole =
      rw (whole, undo_user)
        (undoes_each (snapshot_of current) (select is_ai_role current)
          (rw (named, snapshot_client_uuid) refl))

module _ {T : Type 0} (api : Remote T) (tenant : KeepsRoles api) (user_id uuid : String) where
  removed_or_kept :
      (w : World T) (roles : List RoleRef) (r : RoleRef)
      → Held r (tenant.read w.tenant user_id uuid)
      → Held r roles
        ⊎ Held r (tenant.read (without api tenant user_id uuid w roles).tenant user_id uuid)
  removed_or_kept w [] r held = inr held
  removed_or_kept w (x ∷ roles) r held = tenant.stays user_id uuid (x ∷ roles) w.tenant r held

  removed_gone :
      (w : World T) (roles : List RoleRef) (r : RoleRef)
      → Held r roles
      → ¬ Held r (tenant.read (without api tenant user_id uuid w roles).tenant user_id uuid)
  removed_gone w [] r h = absurd h
  removed_gone w (x ∷ roles) r h = tenant.gone user_id uuid (x ∷ roles) w.tenant r h

  added_there :
      (w : World T) (roles : List RoleRef) (r : RoleRef)
      → Held r roles
      → Held r (tenant.read (with_added api tenant user_id uuid w roles).tenant user_id uuid)
  added_there w [] r h = absurd h
  added_there w (x ∷ roles) r h = tenant.there user_id uuid (x ∷ roles) w.tenant r h

  -- Where the client is known and each AI role of the user has an id and a name, restricting the
  -- user returns; the user then holds none of the AI roles that were held, and still each other
  -- role. Undoing that with its snapshot returns, whatever has happened to the tenant and the
  -- database in between, and the user holds each of those AI roles again.
  pub undo_user-perform_user :
      (w later : World T)
      → w.resolver_uuid ≡ some uuid
      → str_eq uuid "" ≡ false
      → ((r : RoleRef)
          → Held r (tenant.read w.tenant user_id uuid)
          → is_ai_role r ≡ true
          → is_whole r ≡ true)
      → (s : UndoSnapshot) × (w' w'' : World T) × (perform_user api user_id w ≡ (ok s, w'))
        × (undo_user api s user_id later ≡ (ok tt, w''))
        × ((r : RoleRef)
            → Held r (tenant.read w.tenant user_id uuid)
            → (is_ai_role r ≡ true
                → (¬ Held r (tenant.read w'.tenant user_id uuid))
                  × Held r (tenant.read w''.tenant user_id uuid))
              × (is_ai_role r ≡ false → Held r (tenant.read w'.tenant user_id uuid)))
  undo_user-perform_user w later cached named whole =
      let current = tenant.read w.tenant user_id uuid in
      let roles = select is_ai_role current in
      (
        snapshot_of api tenant user_id uuid w current,
        without api tenant user_id uuid w roles,
        with_added api tenant user_id uuid later roles,
        performs api tenant user_id uuid w cached,
        undoes api tenant user_id uuid later current named (whole_roles current whole),
        (λ r held. (
          (λ ai.
              let chosen = Held-select is_ai_role r current held ai in
              (removed_gone w roles r chosen, added_there later roles r chosen)),
          (λ other. elim (removed_or_kept w roles r held) [
            | inl chosen ↦ cc (other, chosen_passes is_ai_role r current chosen)
            | inr kept ↦ kept
          ]),
        )),
      )
