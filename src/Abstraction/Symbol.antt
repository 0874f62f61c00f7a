-- ===== src/Abstraction/Symbol.antt =====
-- abstraction/symbol.h, abstraction/symbol.cpp and abstraction/location.h: the letters of the
-- automata. What points into the syntax tree of the compiler (`stmt`, `fileentry`, `line_no`) and
-- the unused `origin` are left out; a thread is a number and `no_thread` does not occur in a symbol
-- of a control flow graph.
pub mod Equality
use Prim.Native.String.{String}
use liss.Common.{ℕ, ◌%◌, Bool, true, false, ◌&&◌, ◌||◌, not, ◌==◌, if◌then◌else◌, List}
use liss.Common.Int.{ℤ, pos, negsuc, ◌==ℤ◌, int8_of_uint8}

pub data OpClass : Type 0 where
  read write lock unlock wait wait_not notify reset wait_reset yield epsilon tag : OpClass

pub OpClass-discrete : Discrete OpClass
OpClass-discrete = hlevel

-- The number of an enumerator, by which two of them are compared.
abbrev pub code : OpClass → ℕ
code read = 0
code write = 1
code lock = 2
code unlock = 3
code wait = 4
code wait_not = 5
code notify = 6
code reset = 7
code wait_reset = 8
code yield = 9
code epsilon = 10
code tag = 11

abbrev pub op_eq : OpClass → OpClass → Bool
op_eq a b = code a == code b

-- `assumes_allow_switch` and `condyield_is_always_yield` of options.h.
abbrev pub assumes_allow_switch : Bool
assumes_allow_switch = false

abbrev pub condyield_is_always_yield : Bool
condyield_is_always_yield = true

-- abstraction/location.h
pub record Location : Type 0 where
  pub thread : ℕ
  pub state : ℤ

unfoldable pub location_eq : Location → Location → Bool
location_eq a b = a.state ==ℤ b.state && a.thread == b.thread

pub record Symbol : Type 0 where
  pub operation : OpClass
  pub variable : ℕ
  pub variable_name : String
  pub loc : Location
  -- -1 if the symbol is no tag of a branch
  pub tag_branch : ℤ
  pub assumed : Bool
  pub synthesised : Bool

abbrev pub thread_id : Symbol → ℕ
thread_id s = s.loc.thread

abbrev pub state_id : Symbol → ℤ
state_id s = s.loc.state

abbrev pub no_tag : ℤ
no_tag = negsuc 0

-- `symbol(thread_id, state_id)`
unfoldable pub epsilon_symbol : ℕ → ℤ → Symbol
epsilon_symbol t s = record {
  operation = epsilon;
  variable = 0;
  variable_name = "";
  loc = record { thread = t; state = s };
  tag_branch = no_tag;
  assumed = false;
  synthesised = false;
}

-- `symbol(thread_id, state_id, branch)`: the `uint8_t` branch becomes an `int8_t`.
unfoldable pub tag_symbol : ℕ → ℤ → ℕ → Symbol
tag_symbol t s branch = record {
  operation = tag;
  variable = 0;
  variable_name = "";
  loc = record { thread = t; state = s };
  tag_branch = int8_of_uint8 (branch % 256);
  assumed = false;
  synthesised = false;
}

unfoldable pub is_epsilon : Symbol → Bool
is_epsilon s =
    not (op_eq s.operation read) && not (op_eq s.operation write) && not (op_eq s.operation tag)

unfoldable pub is_real_epsilon : Symbol → Bool
is_real_epsilon s = op_eq s.operation epsilon

-- `symbol::operator==`
unfoldable pub symbol_eq : Symbol → Symbol → Bool
unfolding location_eq
symbol_eq s other =
    if not (location_eq s.loc other.loc)
    then false
    else if s.tag_branch ==ℤ no_tag
    then if not (other.tag_branch ==ℤ no_tag)
      then false
      else op_eq s.operation other.operation
        && s.variable == other.variable
        && location_eq s.loc other.loc
    else other.tag_branch ==ℤ s.tag_branch

-- `hash<symbol>`, over the library's `hash_combine` and the hash of a location, a number and an
-- integer.
unfoldable pub symbol_hash : (ℕ → ℕ → ℕ) → (Location → ℕ) → (ℤ → ℕ) → Symbol → ℕ
symbol_hash combine hash_loc hash_int s =
    let seed = hash_loc s.loc in
    if s.tag_branch ==ℤ no_tag
    then combine (combine (combine seed (code s.operation)) s.variable) (hash_loc s.loc)
    else combine seed (hash_int s.tag_branch)

preemption_class : OpClass → Symbol → Bool
preemption_class yield s = true
preemption_class lock s = not s.synthesised
preemption_class wait_reset s = not s.assumed || assumes_allow_switch
preemption_class wait_not s = not s.assumed || assumes_allow_switch
preemption_class wait s = not s.assumed || assumes_allow_switch
preemption_class _ s = false

unfoldable pub is_preemption_point : Symbol → Bool
unfolding preemption_class
is_preemption_point s = preemption_class s.operation s

unlockable_class : OpClass → Symbol → Bool
unlockable_class lock s = not s.synthesised
unlockable_class wait_reset s = not s.assumed || assumes_allow_switch
unlockable_class wait_not s = not s.assumed || assumes_allow_switch
unlockable_class wait s = not s.assumed || assumes_allow_switch
unlockable_class _ s = false

unfoldable pub is_unlockable_point : Symbol → Bool
unfolding unlockable_class
is_unlockable_point s = unlockable_class s.operation s

-- `Limi::independence<symbol>`
unfoldable pub independent : Symbol → Symbol → Bool
unfolding is_epsilon
independent a b =
    not (thread_id a == thread_id b)
    && (not (a.variable == b.variable)
        || op_eq a.operation read && op_eq b.operation read
        || is_epsilon a
        || is_epsilon b
        || op_eq a.operation tag
        || op_eq b.operation tag)
