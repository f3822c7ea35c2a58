-- ===== src/Class.antt =====
-- modules/ircd/class.c: connection classes and how many clients each has.
-- A class is named by `id`, which stands for its address; a connection points to its class by it.
-- The message and privilege sets that a connection takes over from its class are left out.
pub mod Counts
pub mod Invariant
pub mod Operations
pub mod Enter
pub mod Create
use ithildin.Base.{
  ℕ, ◌+◌, ◌-◌, Bool, true, false, ◌&&◌, Option, none, some, List, [], ◌∷◌, ◌==◌, if◌then◌else◌,
  take,
}
use ithildin.Text.Case.{Bytes}
use ithildin.Text.Compare.{strcasecmp}

-- `class_t`
pub record Class : Type 0 where
  pub id : ℕ
  pub name : Bytes
  pub clients : ℕ
  pub dead : Bool

-- The part of `connection_t` that these functions read and write.
pub record Connection : Type 0 where
  pub conn : ℕ
  pub cls : Option ℕ

-- `ircd.lists.classes`, whose first entry is the default class, and the connections.
pub record State : Type 0 where
  pub classes : List Class
  pub conns : List Connection

-- The name is cut to 31 bytes by `strlcpy(c->name, name, 32)`.
unfoldable pub create_class : ℕ → Bytes → State → State
create_class id name s =
    let c : Class = record { id = id; name = take 31 name; clients = 0; dead = false } in
    record s { classes = elim s.classes [ [] ↦ c ∷ [] | d ∷ cs ↦ d ∷ c ∷ cs ] }

unfoldable pub find : ℕ → List Class → Option Class
find k [] = none
find k (c ∷ cs) = if c.id == k then some c else find k cs

-- A write through the pointer to a class.
unfoldable pub put : Class → List Class → List Class
put c [] = []
put c (d ∷ cs) = if d.id == c.id then c ∷ cs else d ∷ put c cs

-- `LIST_REMOVE`
unfoldable pub remove : ℕ → List Class → List Class
remove k [] = []
remove k (c ∷ cs) = if c.id == k then cs else c ∷ remove k cs

abbrev pub is_default : ℕ → List Class → Bool
is_default k [] = false
is_default k (c ∷ cs) = c.id == k

-- The default class is kept; a class with clients only becomes dead.
unfoldable pub destroy : Class → List Class → List Class
unfolding put remove
destroy c cs =
    if is_default c.id cs
    then cs
    else if c.clients == 0
    then remove c.id cs
    else put (record c { dead = true }) cs

-- `none` is the use of a pointer to no class.
unfoldable pub destroy_class : ℕ → State → Option State
unfolding find destroy
destroy_class k s = elim (find k s.classes) [
  | none ↦ none
  | some c ↦ some (record s { classes = destroy c s.classes })
]

unfoldable pub class_of : ℕ → List Connection → Option ℕ
class_of n [] = none
class_of n (x ∷ xs) = if x.conn == n then x.cls else class_of n xs

-- conn->cls = cls
unfoldable pub set_class : ℕ → Option ℕ → List Connection → List Connection
set_class n cls [] = []
set_class n cls (x ∷ xs) =
    if x.conn == n then (record x { cls = cls }) ∷ xs else x ∷ set_class n cls xs

-- The class after one client has gone, among the others.
unfoldable pub leave : Class → List Class → List Class
unfolding put destroy
leave c cs =
    let c' : Class = record c { clients = c.clients - 1 } in
    if c'.clients == 0 && c'.dead then destroy c' (put c' cs) else put c' cs

unfoldable pub del_from_class : ℕ → State → Option State
unfolding class_of find leave set_class
del_from_class n s = elim (class_of n s.conns) [
  | none ↦ none
  | some k ↦ elim (find k s.classes) [
    | none ↦ none
    | some c ↦ some (record { classes = leave c s.classes; conns = set_class n none s.conns })
  ]
]

-- conn->cls = c; c->clients++;
unfoldable pub enter : ℕ → ℕ → State → Option State
unfolding find put set_class
enter k n s = elim (find k s.classes) [
  | none ↦ none
  | some c ↦ some (record {
    classes = put (record c { clients = c.clients + 1 }) s.classes;
    conns = set_class n (some k) s.conns;
  })
]

unfoldable pub add_to_class : ℕ → ℕ → State → Option State
unfolding class_of del_from_class enter
add_to_class k n s = elim (class_of n s.conns) [
  | none ↦ enter k n s
  | some j ↦
      if j == k then some s else elim (del_from_class n s) [ none ↦ none | some s' ↦ enter k n s' ]
]
