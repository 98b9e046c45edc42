-- ===== src/Extensions.antt =====
-- Which extensions are activated: tau_extensions/resolution.py, with the data that it reads of
-- tau_extensions/discovery.py and tau_extensions/manifest.py.
pub mod Trust
pub mod Dependencies
pub mod Ordering
pub mod Cycles
pub mod Resolution
mod Examples
use Prim.Native.String.{◌++◌ as append}
use tau_prime.Prelude.{
  ℕ, zero, suc, String, Bool, true, false, not, ◌&&◌, ◌||◌, Option, none, some, List, [], ◌∷◌, ◌++◌,
  ◌==◌, contains, ltb, leb, length, if◌then◌else◌, sort, sort_by, difference,
}

-- `ExtensionSource`
pub data ExtensionSource : Type 0 where
  built_in admin workspace : ExtensionSource

-- The fields of `SemVer` that are read here. `text` is what the object is as a `str`.
pub record SemVer : Type 0 where
  pub major : ℕ
  pub minor : ℕ
  pub patch : ℕ
  pub text : String

pub data RangeKind : Type 0 where
  exact caret : RangeKind

pub record VersionRange : Type 0 where
  pub kind : RangeKind
  pub major : ℕ
  pub minor : ℕ
  pub patch : Option ℕ
  pub text : String

pub record Dependency : Type 0 where
  pub id : String
  pub version : Option VersionRange

-- The fields of `ExtensionManifest` that are read here. A `Permission` is one of some texts.
pub record ExtensionManifest : Type 0 where
  pub id : String
  pub version : SemVer
  pub dependencies : List Dependency
  pub permissions : List String

pub record Candidate : Type 0 where
  pub manifest : ExtensionManifest
  pub manifest_path : String
  pub source : ExtensionSource
  pub fingerprint : String

pub record Diagnostic : Type 0 where
  pub code : String
  pub message : String
  pub path : Option String
  pub id : Option String

pub record ExtensionApproval : Type 0 where
  pub extension_id : String
  pub fingerprint : String

-- `permission_allowlists` has every source as a key.
pub record TrustPolicy : Type 0 where
  pub admin_allowlist : List String
  pub permission_allowlists : ExtensionSource → List String

pub record ResolutionDecision : Type 0 where
  pub candidate : Candidate
  pub enabled : Bool
  pub code : String
  pub reason : String

abbrev pub all_permissions : List String
all_permissions =
    "storage" ∷ "background_tasks" ∷ "assets" ∷ "commands" ∷ "tools" ∷ "routes" ∷ "events" ∷ "views"
    ∷ "actions" ∷ "sandboxed_widgets" ∷ "trusted_frontend" ∷ []

abbrev pub default_workspace_permissions : List String
default_workspace_permissions = "views" ∷ "actions" ∷ "events" ∷ "commands" ∷ []

-- `_HARD_DENIED_SOURCE_PERMISSIONS`
abbrev pub hard_denied_source_permissions : ExtensionSource → List String
hard_denied_source_permissions workspace = "trusted_frontend" ∷ []
hard_denied_source_permissions source = []

abbrev pub default_permission_allowlists : ExtensionSource → List String
default_permission_allowlists workspace = default_workspace_permissions
default_permission_allowlists source = all_permissions

abbrev pub or_default {ℓ} : {A : Type ℓ} → Option A → A → A
or_default none a = a
or_default (some b) a = b

-- `TrustPolicy.__init__`: the lists that are given for some sources, or the defaults, less what is
-- denied in any case.
unfoldable pub trust_policy : List String → (ExtensionSource → Option (List String)) → TrustPolicy
trust_policy admin_allowlist permission_allowlists = record {
  admin_allowlist = admin_allowlist;
  permission_allowlists = λ source.
      difference (or_default (permission_allowlists source) (default_permission_allowlists source))
        (hard_denied_source_permissions source);
}

-- `(a, b) >= (c, d)`
abbrev pub pair_ge : ℕ → ℕ → ℕ → ℕ → Bool
pair_ge a b c d = ltb c a || (leb a c && leb c a && leb d b)

abbrev pub same_number : ℕ → ℕ → Bool
same_number a b = leb a b && leb b a

abbrev pub contains_minor : RangeKind → ℕ → Option ℕ → SemVer → Bool
contains_minor exact minor none v = same_number v.minor minor
contains_minor exact minor (some patch) v = same_number v.minor minor && same_number v.patch patch
contains_minor caret minor none v = leb minor v.minor
contains_minor caret minor (some patch) v = pair_ge v.minor v.patch minor patch

-- `VersionRange.contains`
unfoldable pub contains_version : VersionRange → SemVer → Bool
contains_version r v =
    if not (same_number v.major r.major) then false else contains_minor r.kind r.minor r.patch v

abbrev pub has_approval : List ExtensionApproval → String → String → Bool
has_approval [] id fingerprint = false
has_approval (a ∷ rest) id fingerprint =
    (a.extension_id == id && a.fingerprint == fingerprint) || has_approval rest id fingerprint

-- `extension_id in approvals_by_id`
abbrev pub has_approvals : List ExtensionApproval → String → Bool
has_approvals [] id = false
has_approvals (a ∷ rest) id = (a.extension_id == id) || has_approvals rest id

abbrev pub is_admin : ExtensionSource → Bool
is_admin admin = true
is_admin source = false

abbrev pub is_workspace : ExtensionSource → Bool
is_workspace workspace = true
is_workspace source = false

abbrev pub source_value : ExtensionSource → String
source_value built_in = "built_in"
source_value admin = "admin"
source_value workspace = "workspace"

-- `", ".join(texts)`
abbrev pub join_texts : List String → String
join_texts [] = ""
join_texts (x ∷ []) = x
join_texts (x ∷ (y ∷ ys)) = append x (append ", " (join_texts (y ∷ ys)))

abbrev pub has_items {ℓ} : {A : Type ℓ} → List A → Bool
has_items [] = false
has_items (x ∷ xs) = true

-- `extension_id in enabled_ids`, which is not asked for a built-in extension.
abbrev pub asked_for : ExtensionSource → List String → String → Bool
asked_for built_in enabled_ids id = true
asked_for source enabled_ids id = contains enabled_ids id

abbrev pub enabled_by : ExtensionSource → Candidate → ResolutionDecision
enabled_by built_in c = record {
  candidate = c;
  enabled = true;
  code = "builtin_default_enabled";
  reason = "built-in extension is enabled by default";
}
enabled_by source c = record {
  candidate = c;
  enabled = true;
  code = "explicitly_enabled";
  reason = "extension is explicitly enabled";
}

abbrev pub refused_for : String → String → Candidate → ResolutionDecision
refused_for code reason c = record { candidate = c; enabled = false; code = code; reason = reason }

-- `candidate.manifest.permissions - policy.permissions_for(candidate.source)`
abbrev pub denied_permissions : TrustPolicy → Candidate → List String
denied_permissions p c = difference c.manifest.permissions (p.permission_allowlists c.source)

-- `_initial_decision`
unfoldable pub initial_decision :
    TrustPolicy → List String → List ExtensionApproval → Candidate → ResolutionDecision
initial_decision p enabled_ids approvals c =
    if not (asked_for c.source enabled_ids c.manifest.id)
    then refused_for "not_enabled" "extension is not explicitly enabled" c
    else if is_admin c.source && not (contains p.admin_allowlist c.manifest.id)
    then refused_for "admin_not_allowlisted" "admin extension is not in the admin allowlist" c
    else if is_workspace c.source && not (has_approval approvals c.manifest.id c.fingerprint)
    then (if has_approvals approvals c.manifest.id
        then refused_for "workspace_approval_mismatch"
            "workspace extension fingerprint does not match its recorded approval" c
        else refused_for "workspace_approval_required"
            "workspace extension requires approval for its current fingerprint" c)
    else if has_items (denied_permissions p c)
    then refused_for "permission_denied"
        (append "requested permissions are not allowed for " (
          append (source_value c.source)
            (append " extensions: " (join_texts (sort (denied_permissions p c))))))
        c
    else enabled_by c.source c
