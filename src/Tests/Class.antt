-- ===== src/Tests/Class.antt =====
-- modules/ircd/class.c at three classes and two connections.
use ithildin.Base.{ℕ, ◌≡◌, refl, ◌≢◌, true, false, none, some, [], ◌∷◌, arith}
use ithildin.Class.{Class, State, find, class_of, set_class, del_from_class, add_to_class}
use ithildin.Class.Counts.{members, copies, present}
use ithildin.Class.Invariant.{IsValid}
use ithildin.Class.Operations.{del_from_class-IsValid}
use ithildin.Class.Enter.{Enters, add_to_class-Enters}

abbrev pub default : Class
default = record { id = 10; name = []; clients = 1; dead = false }

abbrev pub dying : Class
dying = record { id = 30; name = []; clients = 1; dead = true }

abbrev pub clients_of : State
clients_of = record {
  classes = default ∷ dying ∷ [];
  conns = (record { conn = 1; cls = some 10 }) ∷ (record { conn = 2; cls = some 30 }) ∷ [];
}

pub clients_of-IsValid : IsValid clients_of
unfolding find members copies
clients_of-IsValid = record {
  single = λ k. ground arith;
  counted = λ k c h. ground (arith, h);
  pointing = λ k m. ground (arith, m);
  alive = λ k c h dead. ground (arith, h, dead);
}

found_dying : find 30 clients_of.classes ≡ some dying
unfolding find
found_dying = refl

found_default : find 10 clients_of.classes ≡ some default
unfolding find
found_default = refl

in_dying : class_of 2 clients_of.conns ≡ some 30
unfolding class_of
in_dying = refl

here : present 2 clients_of.conns ≡ true
unfolding present
here = refl

not_found : find 20 clients_of.classes ≡ none
unfolding find
not_found = refl

del_from_class-IsValid_example :
    (t : State) × (del_from_class 2 clients_of ≡ some t)
    × IsValid t
    × (class_of 2 t.conns ≡ none)
    × (t.conns ≡ set_class 2 none clients_of.conns)
    × ((j : ℕ) → 30 ≢ j → find j t.classes ≡ find j clients_of.classes)
del_from_class-IsValid_example = del_from_class-IsValid 2 30 clients_of clients_of-IsValid in_dying

add_to_class-Enters_example :
    (t : State) × (add_to_class 10 2 clients_of ≡ some t) × Enters 10 2 clients_of t
add_to_class-Enters_example =
    add_to_class-Enters 10 2 default clients_of clients_of-IsValid here found_default
