-- ===== src/Acl/Find.antt =====
-- modules/ircd/addons/acl.c: `find_acl`.
use ithildin.Base.{
  ℕ, ap, Bool, true, false, ◌&&◌, ◌||◌, not, Option, none, some, List, [], ◌∷◌, ◌==◌, if◌then◌else◌,
  ℤ, pos, negsuc, is_zero,
}
use ithildin.Text.Case.{Bytes}
use ithildin.Text.Compare.{strcasecmp, strcmp}
use ithildin.Acl.Entry.{Access, deny, allow, Acl, State, list_of, given_rule, user_host}

-- `!strcasecmp`, and `!strcmp`: strings end with their NUL, so a comparison does not read on.
unfoldable pub same : Option ℤ → Bool
same none = false
same (some z) = is_zero z

-- pass == NULL || !strcmp(ap->pass, pass); `none` is a comparison with a null pointer
unfoldable pub agrees : Option Bytes → Option Bytes → Option Bool
unfolding same strcmp
agrees none has = some true
agrees (some wanted) none = none
agrees (some wanted) (some has) = some (same (strcmp has wanted))

-- `&&` between tests that may fault
unfoldable pub and_then : Option Bool → Option Bool → Option Bool
and_then none k = none
and_then (some false) k = some false
and_then (some true) k = k

-- acc != ACL_ACCESS_ANY && ap->access != acc, negated
unfoldable pub has_access : Option Access → Access → Bool
has_access none a = true
has_access (some deny) deny = true
has_access (some allow) allow = true
has_access (some deny) allow = false
has_access (some allow) deny = false

-- rule != ACL_ANY_RULE && ap->rule != rule, negated
unfoldable pub has_rule : ℤ → ℕ → Bool
has_rule (pos n) rule = rule == n
has_rule (negsuc n) rule = n == 0

-- The tests of `find_acl` on one entry, `acc` being none for `ACL_ACCESS_ANY`.
unfoldable pub is_sought :
    Option Access → Bytes → Bytes → Bytes → ℤ → Option Bytes → Option Bytes → Acl → Option Bool
unfolding has_access has_rule same strcasecmp agrees and_then
is_sought acc user host kind rule pass info ap =
    if not (has_access acc ap.access) || not (has_rule rule ap.rule)
    then some false
    else if same (strcasecmp ap.user user)
        && same (strcasecmp ap.host host)
        && same (strcasecmp ap.kind kind)
    then and_then (agrees pass ap.pass) (agrees info ap.info)
    else some false

-- The walk of `find_acl`; `none` is a null pointer that is read.
unfoldable pub find_from : (Acl → Option Bool) → List Acl → Option (Option Acl)
find_from sought [] = some none
find_from sought (ap ∷ acls) = elim (sought ap) [
  | none ↦ none
  | some true ↦ some (some ap)
  | some false ↦ find_from sought acls
]

unfoldable pub find_acl :
    ℕ
    → Option Access
    → Bytes
    → Bytes
    → ℤ
    → Option Bytes
    → Option Bytes
    → State
    → Option (Option Acl)
unfolding user_host given_rule is_sought find_from list_of
find_acl stage acc hostmask kind rule pass info s =
    let (user, host) = user_host hostmask in
    find_from (is_sought acc user host kind (given_rule rule s) pass info) (list_of stage s)
