-- ===== src/Convert/Overload.antt =====
-- odb-compiler/src/ir/semantic/ASTConverter.cpp, `convertCommandCallExpression`: which overload of a
-- command a call means.
use open_dark_basic.Prelude.{
  ℕ, ◌+◌, Bool, true, false, ◌&&◌, ◌||◌, not, Option, none, some, List, [], ◌∷◌, ltb, ◌==◌,
  if◌then◌else◌, length, keep,
}
use open_dark_basic.Commands.Command.{Command, Arg, CommandType}
use open_dark_basic.Ir.{Arguments, get_type}
use open_dark_basic.Ir.Types.{IrType, builtin, is_integral_type, is_floating_point_type, type_eq}
use open_dark_basic.Convert.{get_type_from_command_type, is_type_convertible}

abbrev pub map_both : {A B C : Type 0} → (A → B → C) → Option A → Option B → Option C
map_both f (some a) (some b) = some (f a b)
map_both f _ _ = none

abbrev pub map_some : {A B : Type 0} → (A → B) → Option A → Option B
map_some f none = none
map_some f (some a) = some (f a)

-- The types of the arguments of the call.
unfoldable pub argument_types : Arguments → Option (List IrType)
argument_types Arguments.nil = some []
argument_types (Arguments.cons e args) =
    map_both (λ t ts. t ∷ ts) (get_type e) (argument_types args)

-- An argument of the type `X` or `A`, which are arrays and anything.
abbrev pub is_any_or_array : CommandType → Bool
is_any_or_array (CommandType.unlisted c) = c == b'X' || c == b'A'
is_any_or_array _ = false

abbrev pub or_else : Option Bool → Option Bool → Option Bool
or_else none rest = none
or_else (some true) rest = some true
or_else (some false) rest = rest

abbrev pub not_convertible : IrType → Option IrType → Option Bool
not_convertible t none = none
not_convertible t (some target) = some (not (is_type_convertible t target))

-- `convertArgumentsNotPossiblePrecondition`, of a candidate that has as many arguments.
unfoldable pub arguments_not_possible : List IrType → List Arg → Option Bool
arguments_not_possible (t ∷ ts) (a ∷ as') =
    let rest = arguments_not_possible ts as' in
    if is_any_or_array a.type
    then some true
    else or_else (not_convertible t (get_type_from_command_type a.type)) rest
arguments_not_possible ts as' = some false

-- The candidates without those that the test removes.
abbrev pub keep_or_drop : Command → Bool → List Command → List Command
keep_or_drop c true cs = cs
keep_or_drop c false cs = c ∷ cs

unfoldable pub remove_not_possible : List IrType → List Command → Option (List Command)
unfolding arguments_not_possible
remove_not_possible ts [] = some []
remove_not_possible ts (c ∷ cs) =
    map_both (keep_or_drop c) (arguments_not_possible ts c.args) (remove_not_possible ts cs)

-- What one argument adds to the score.
abbrev pub archetype_score : IrType → IrType → ℕ
archetype_score (builtin a) (builtin b) =
    (if is_integral_type a && is_integral_type b then 1 else 0)
    + (if is_floating_point_type a && is_floating_point_type b then 1 else 0)
archetype_score _ _ = 0

unfoldable pub argument_score : IrType → IrType → ℕ
argument_score overload_type arg_type =
    if type_eq overload_type arg_type then 10 else archetype_score overload_type arg_type

-- `scoreCandidate`.
unfoldable pub score_candidate : List IrType → List Arg → Option ℕ
unfolding argument_score
score_candidate (t ∷ ts) (a ∷ as') =
    map_both (λ overload_type rest. argument_score overload_type t + rest)
      (get_type_from_command_type a.type) (score_candidate ts as')
score_candidate ts as' = some 0

-- The last of the candidates sorted by their score. `std::sort` leaves open which one this is among
-- those with the greatest score; here it is the one that stands last.
abbrev pub better : Command × ℕ → Command × ℕ → Command × ℕ
better a b = if ltb b.1 a.1 then a else b

unfoldable pub best_candidate : List IrType → Command → List Command → Option (Command × ℕ)
unfolding score_candidate
best_candidate ts c [] = map_some (λ score. (c, score)) (score_candidate ts c.args)
best_candidate ts c (d ∷ cs) =
    map_both (λ score best. better (c, score) best) (score_candidate ts c.args)
      (best_candidate ts d cs)

abbrev pub best_of : List IrType → List Command → Option Command
best_of ts [] = none
best_of ts (c ∷ cs) = elim (best_candidate ts c cs) [ none ↦ none | some (d, score) ↦ some d ]

abbrev pub best_of_some : List IrType → Option (List Command) → Option Command
best_of_some ts none = none
best_of_some ts (some possible) = best_of ts possible

-- The overload for a call with arguments of these types; none is the fatal error that there is none.
unfoldable pub select_overload : List IrType → List Command → Option Command
unfolding remove_not_possible best_candidate
select_overload ts candidates =
    let of_arity = keep (λ c. length c.args == length ts) candidates in
    elim (remove_not_possible ts of_arity) [ none ↦ none | some possible ↦ best_of ts possible ]

-- The command that is called. `candidates.front()` of no candidates is out of bounds, here none.
unfoldable pub find_command : List IrType → List Command → Option Command
unfolding select_overload
find_command [] [] = none
find_command [] (c ∷ cs) = some c
find_command (t ∷ ts) [] = none
find_command (t ∷ ts) (c ∷ cs) = select_overload (t ∷ ts) (c ∷ cs)
