-- ===== src/Extensions/Trust.antt =====
-- On `_initial_decision` of tau_extensions/resolution.py and what vouches for an extension.
use tau_prime.Prelude.{
  String, Bool, true, false, not, ◌&&◌, Option, List, [], ◌∷◌, ◌==◌, ◌≡◌, ◌≢◌, ◌↔◌, ◌⊎◌, refl, sym,
  ◌∙◌, arith, contains, eq_iff, eq_refl, contains-difference, Bool-cases, inl, inr,
}
use tau_prime.Extensions.{
  ExtensionSource, built_in, admin, workspace, Candidate, ExtensionApproval,
  default_permission_allowlists, hard_denied_source_permissions, or_default, trust_policy,
  has_approval, is_admin, is_workspace, has_items, asked_for, enabled_by, denied_permissions,
  initial_decision,
}

-- Among the approvals is one of the extension as it is now.
abbrev pub IsApproved : List ExtensionApproval → Candidate → Type 0
IsApproved [] c = ⊥
IsApproved (a ∷ rest) c =
    ((a.extension_id ≡ c.manifest.id) × (a.fingerprint ≡ c.fingerprint)) ⊎ IsApproved rest c

-- What vouches for an extension, by where it comes from.
abbrev pub IsVouchedFor :
    List String → List String → List ExtensionApproval → ExtensionSource → Candidate → Type 0
IsVouchedFor allowlist enabled_ids approvals built_in c = Unit
IsVouchedFor allowlist enabled_ids approvals admin c =
    (contains enabled_ids c.manifest.id ≡ true) × (contains allowlist c.manifest.id ≡ true)
IsVouchedFor allowlist enabled_ids approvals workspace c =
    (contains enabled_ids c.manifest.id ≡ true) × IsApproved approvals c

-- A permission is on the list of the source, and is not one that a workspace never gets.
abbrev pub IsAllowed : (ExtensionSource → Option (List String)) → ExtensionSource → String → Type 0
IsAllowed allowed source x =
    (contains (or_default (allowed source) (default_permission_allowlists source)) x ≡ true)
    × (source ≡ workspace → x ≢ "trusted_frontend")

pub record IsTrusted (allowlist : List String) (allowed : ExtensionSource → Option (List String))
    (enabled_ids : List String) (approvals : List ExtensionApproval) (c : Candidate) : Type 0 where
  pub vouched : IsVouchedFor allowlist enabled_ids approvals c.source c
  pub permitted :
      (x : String) → contains c.manifest.permissions x ≡ true → IsAllowed allowed c.source x

has_approval-IsApproved :
    (approvals : List ExtensionApproval) (c : Candidate)
    → has_approval approvals c.manifest.id c.fingerprint ≡ true
    → IsApproved approvals c
has_approval-IsApproved [] c h = cc
has_approval-IsApproved (a ∷ rest) c h =
    elim (Bool-cases (has_approval rest c.manifest.id c.fingerprint)) [
      | inl e ↦ inr (has_approval-IsApproved rest c e)
      | inr e ↦ inl (
        (eq_iff a.extension_id c.manifest.id).0 (ground arith),
        (eq_iff a.fingerprint c.fingerprint).0 (ground arith),
      )
    ]

IsApproved-has_approval :
    (approvals : List ExtensionApproval) (c : Candidate)
    → IsApproved approvals c
    → has_approval approvals c.manifest.id c.fingerprint ≡ true
IsApproved-has_approval [] c h = absurd h
IsApproved-has_approval (a ∷ rest) c (inl (e, f)) =
    ground (arith, eq_iff a.extension_id c.manifest.id, eq_iff a.fingerprint c.fingerprint)
IsApproved-has_approval (a ∷ rest) c (inr h) = ground (arith, IsApproved-has_approval rest c h)

-- A list has no item exactly where nothing is in it.
no_items : (xs : List String) → has_items xs ≡ false → (x : String) → contains xs x ≡ false
no_items [] h x = refl
no_items (y ∷ ys) h x = cc

has_no_items : (xs : List String) → ((x : String) → contains xs x ≡ false) → has_items xs ≡ false
has_no_items [] h = refl
has_no_items (y ∷ ys) h = ground (arith, h y, eq_refl y)

hard_denied-never :
    (source : ExtensionSource) (x : String)
    → contains (hard_denied_source_permissions source) x ≡ false
    → source ≡ workspace
    → x ≢ "trusted_frontend"
hard_denied-never built_in x h e same = cc
hard_denied-never admin x h e same = cc
hard_denied-never workspace x h e same = ground (arith, eq_iff "trusted_frontend" x)

never-hard_denied :
    (source : ExtensionSource) (x : String)
    → (source ≡ workspace → x ≢ "trusted_frontend")
    → contains (hard_denied_source_permissions source) x ≡ false
never-hard_denied built_in x h = refl
never-hard_denied admin x h = refl
never-hard_denied workspace x h = elim (Bool-cases ("trusted_frontend" == x)) [
  | inl e ↦ absurd (h refl (sym ((eq_iff "trusted_frontend" x).0 e)))
  | inr e ↦ rw e refl
]

-- What the merged lists allow.
permission_allowlists-IsAllowed :
    (allowlist : List String) (allowed : ExtensionSource → Option (List String))
    (source : ExtensionSource) (x : String)
    → contains ((trust_policy allowlist allowed).permission_allowlists source) x ≡ true
    → IsAllowed allowed source x
unfolding trust_policy
permission_allowlists-IsAllowed allowlist allowed source x h =
    let given = or_default (allowed source) (default_permission_allowlists source) in
    let split = contains-difference given (hard_denied_source_permissions source) x in
    (ground arith, hard_denied-never source x (ground arith))

IsAllowed-permission_allowlists :
    (allowlist : List String) (allowed : ExtensionSource → Option (List String))
    (source : ExtensionSource) (x : String)
    → IsAllowed allowed source x
    → contains ((trust_policy allowlist allowed).permission_allowlists source) x ≡ true
unfolding trust_policy
IsAllowed-permission_allowlists allowlist allowed source x h =
    let given = or_default (allowed source) (default_permission_allowlists source) in
    contains-difference given (hard_denied_source_permissions source) x
    ∙ ground (arith, h.0, never-hard_denied source x h.1)

enabled-enabled_by :
    (source : ExtensionSource) (c : Candidate) → (enabled_by source c).enabled ≡ true
enabled-enabled_by built_in c = refl
enabled-enabled_by admin c = refl
enabled-enabled_by workspace c = refl

module _ (allowlist : List String) (allowed : ExtensionSource → Option (List String))
    (enabled_ids : List String) (approvals : List ExtensionApproval) (c : Candidate) where
  -- The guards that come before the permissions.
  abbrev is_vouched : ExtensionSource → Bool
  is_vouched source =
      asked_for source enabled_ids c.manifest.id
      && (not (is_admin source && not (contains allowlist c.manifest.id))
          && not (is_workspace source && not (has_approval approvals c.manifest.id c.fingerprint)))

  enabled-initial_decision :
      (initial_decision (trust_policy allowlist allowed) enabled_ids approvals c).enabled ≡ (
        is_vouched c.source
        && not (has_items (denied_permissions (trust_policy allowlist allowed) c)))
  unfolding initial_decision trust_policy
  enabled-initial_decision = ground (arith, enabled-enabled_by c.source c)

  is_vouched-IsVouchedFor :
      (source : ExtensionSource)
      → is_vouched source ≡ true
      → IsVouchedFor allowlist enabled_ids approvals source c
  is_vouched-IsVouchedFor built_in h = tt
  is_vouched-IsVouchedFor admin h = (ground arith, ground arith)
  is_vouched-IsVouchedFor workspace h =
      (ground arith, has_approval-IsApproved approvals c (ground arith))

  IsVouchedFor-is_vouched :
      (source : ExtensionSource)
      → IsVouchedFor allowlist enabled_ids approvals source c
      → is_vouched source ≡ true
  IsVouchedFor-is_vouched built_in h = refl
  IsVouchedFor-is_vouched admin h = ground arith
  IsVouchedFor-is_vouched workspace h = ground (arith, IsApproved-has_approval approvals c h.1)

  enabled→trusted :
      (initial_decision (trust_policy allowlist allowed) enabled_ids approvals c).enabled ≡ true
      → IsTrusted allowlist allowed enabled_ids approvals c
  enabled→trusted h =
      let both = sym enabled-initial_decision ∙ h in
      let denied = denied_permissions (trust_policy allowlist allowed) c in
      record {
        vouched = is_vouched-IsVouchedFor c.source (ground arith);
        permitted = λ x wanted. permission_allowlists-IsAllowed allowlist allowed c.source x (
            ground (
              arith,
              no_items denied (ground arith) x,
              contains-difference c.manifest.permissions
                  ((trust_policy allowlist allowed).permission_allowlists c.source) x,
            ));
      }

  trusted→enabled :
      IsTrusted allowlist allowed enabled_ids approvals c
      → (initial_decision (trust_policy allowlist allowed) enabled_ids approvals c).enabled ≡ true
  trusted→enabled t =
      let denied = denied_permissions (trust_policy allowlist allowed) c in
      let given = (trust_policy allowlist allowed).permission_allowlists c.source in
      let nothing : (has_items denied ≡ false) = has_no_items denied (λ x.
        contains-difference c.manifest.permissions given x
        ∙ elim (Bool-cases (contains c.manifest.permissions x)) [
          | inl e ↦ ground (
            arith,
            IsAllowed-permission_allowlists allowlist allowed c.source x (t.permitted x e),
          )
          | inr e ↦ ground arith
        ]) in
      enabled-initial_decision ∙ ground (arith, IsVouchedFor-is_vouched c.source t.vouched, nothing)

  -- For every choice of the policy's lists, the ids that are asked for and the approvals, an
  -- extension is enabled at first exactly where it is trusted: a built-in one always is vouched for,
  -- one of the administrator only where it is asked for and on the administrator's list, one of a
  -- workspace only where it is asked for and approved with its present fingerprint; and each
  -- permission that it wants is allowed for its source, the trusted frontend never for a workspace.
  pub initial_decision-IsTrusted :
      ((initial_decision (trust_policy allowlist allowed) enabled_ids approvals c).enabled ≡ true)
      ↔ IsTrusted allowlist allowed enabled_ids approvals c
  initial_decision-IsTrusted = (enabled→trusted, trusted→enabled)
