-- ===== src/Codegen/Joined.antt =====
-- src/bs_byte_codegen.cpp: where the jumps of `and` and `or` go.
use barista_script.Common.{
  ℕ, suc, ◌+◌, ◌<◌, ◌≡◌, ◌≢◌, refl, sym, ap, ◌∙◌, some, List, [], ◌∷◌, ◌++◌, length, length-append,
  get_elem?, get_elem?-append_lt, get_elem?-append_length, set, append_assoc, arith, Bool-cases,
  inl, inr, ◌==◌, ==_iff,
}
use barista_script.Common.Int.{ℤ, pos}
use barista_script.Codegen.Address.{Address}
use barista_script.Codegen.State.{Generator, append, append_address, address_word, patch_jump}
use barista_script.Codegen.Jumps.{opcode_assign_true, opcode_assign_false, opcode_jump}
use barista_script.Codegen.Patch.{length-set}
use barista_script.Codegen.Placed.{get_elem?-set_eq, get_elem?-set_ne}
use barista_script.Codegen.Logic.{join, write_end_logic, write_end_and, write_end_or}

-- The code behind the operands, and where the jumps go.
pub record IsJoined (through jumped : ℤ) (target : Address) (left right : ℕ)
    (before after : Generator) : Type 0 where
  pub left_jump : get_elem? after.opcodes left ≡ some (pos (length before.opcodes + 4))
  pub right_jump : get_elem? after.opcodes right ≡ some (pos (length before.opcodes + 4))
  pub skip_jump :
      get_elem? after.opcodes (length before.opcodes + 3) ≡ some (pos (length before.opcodes + 6))
  pub through_word : get_elem? after.opcodes (length before.opcodes) ≡ some through
  pub through_target :
      get_elem? after.opcodes (length before.opcodes + 1)
      ≡ some (address_word target.mode target.address)
  pub jump_word : get_elem? after.opcodes (length before.opcodes + 2) ≡ some opcode_jump
  pub jumped_target :
      get_elem? after.opcodes (length before.opcodes + 5)
      ≡ some (address_word target.mode target.address)
  pub jumped_word : get_elem? after.opcodes (length before.opcodes + 4) ≡ some jumped
  pub size : length after.opcodes ≡ length before.opcodes + 6
  pub kept :
      (p : ℕ)
      → p < length before.opcodes
      → left ≢ p
      → right ≢ p
      → get_elem? after.opcodes p ≡ get_elem? before.opcodes p

-- The code of `join` behind the patches of the two jumps.
closed_code : List ℤ → ℤ → ℤ → ℕ → ℤ → List ℤ
closed_code ops e f skip to = set ((ops ++ e ∷ []) ++ f ∷ []) skip to

get_elem?-closed_code :
    (ops : List ℤ) (e f to : ℤ) (skip p : ℕ)
    → p < length ops
    → skip ≢ p
    → get_elem? (closed_code ops e f skip to) p ≡ get_elem? ops p
unfolding closed_code
get_elem?-closed_code ops e f to skip p inside ne =
    get_elem?-set_ne ((ops ++ e ∷ []) ++ f ∷ []) skip p to ne
    ∙ (get_elem?-append_lt (ops ++ e ∷ []) (f ∷ []) p
          (omega (arith, inside, length-append ops (e ∷ [])))
        ∙ get_elem?-append_lt ops (e ∷ []) p inside)

length-closed_code :
    (ops : List ℤ) (e f to : ℤ) (skip : ℕ) → length (closed_code ops e f skip to) ≡ length ops + 2
unfolding closed_code
length-closed_code ops e f to skip = omega (
  arith,
  length-set ((ops ++ e ∷ []) ++ f ∷ []) skip to,
  length-append (ops ++ e ∷ []) (f ∷ []),
  length-append ops (e ∷ []),
)

-- The words behind, and the one at `skip`.
closed_code-behind :
    (ops : List ℤ) (e f to : ℤ) (skip : ℕ)
    → skip < length ops
    → (get_elem? (closed_code ops e f skip to) (length ops) ≡ some e)
      × (get_elem? (closed_code ops e f skip to) skip ≡ some to)
unfolding closed_code
closed_code-behind ops e f to skip inside = (
  get_elem?-set_ne ((ops ++ e ∷ []) ++ f ∷ []) skip (length ops) to
        (λ same. omega (arith, same, inside))
      ∙ rw (append_assoc ops (e ∷ []) (f ∷ [])) (get_elem?-append_length ops (f ∷ []) e),
  get_elem?-set_eq ((ops ++ e ∷ []) ++ f ∷ []) skip to
      (omega (arith, inside, length-append (ops ++ e ∷ []) (f ∷ []), length-append ops (e ∷ []))),
)

get_elem?-append_at :
    (xs ys : List ℤ) (k : ℕ) → get_elem? (xs ++ ys) (length xs + k) ≡ get_elem? ys k
get_elem?-append_at [] ys k = ap (get_elem? ys) (omega arith)
get_elem?-append_at (x ∷ xs) ys k =
    ap (get_elem? ((x ∷ xs) ++ ys)) (suc_first (length xs)) ∙ get_elem?-append_at xs ys k
  where
    suc_first : (n : ℕ) → suc n + k ≡ suc (n + k)
    suc_first n = omega arith

get_elem?-closed_code_last :
    (ops : List ℤ) (e f to : ℤ) (skip : ℕ)
    → skip < length ops
    → get_elem? (closed_code ops e f skip to) (length ops + 1) ≡ some f
unfolding closed_code
get_elem?-closed_code_last ops e f to skip inside =
    get_elem?-set_ne ((ops ++ e ∷ []) ++ f ∷ []) skip (length ops + 1) to
      (λ same. omega (arith, same, inside))
    ∙ rw (append_assoc ops (e ∷ []) (f ∷ [])) (get_elem?-append_at ops (e ∷ f ∷ []) 1)

-- Two positions that take the same value.
set_both_left :
    (ops : List ℤ) (left right : ℕ) (v : ℤ)
    → left < length ops
    → get_elem? (set (set ops left v) right v) left ≡ some v
set_both_left ops left right v h = elim (Bool-cases (right == left)) [
  | inl same ↦
      rw ((==_iff right left).0 same)
        (get_elem?-set_eq (set ops left v) left v (omega (arith, h, length-set ops left v)))
  | inr other ↦
      get_elem?-set_ne (set ops left v) right left v (λ e. ground (arith, e, other))
      ∙ get_elem?-set_eq ops left v h
]

pub join-IsJoined :
    (through jumped : ℤ) (target : Address) (left right : ℕ) (rest : List ℕ) (g : Generator)
    → left < length g.opcodes
    → right < length g.opcodes
    → IsJoined through jumped target left right g (join through jumped target left right rest g)
unfolding join patch_jump append append_address closed_code
join-IsJoined through jumped target left right rest g l r = record {
  left_jump = read left l ∙ (both left ∙ set_both_left code left right to (omega (arith, l, long)));
  right_jump =
      read right r
      ∙ (both right
          ∙ get_elem?-set_eq (set code left to) right to
              (omega (arith, r, long, length-set code left to)));
  skip_jump =
      ap (get_elem? (join through jumped target left right rest g).opcodes) (sym behind)
      ∙ (behind_both.1
          ∙ ap (λ n. some (pos n))
              (omega (
                arith,
                size_patched,
                length-append (patched ++ jumped ∷ []) (word ∷ []),
                length-append patched (jumped ∷ []),
              )));
  through_word =
      ap (get_elem? (join through jumped target left right rest g).opcodes) (omega arith)
      ∙ word_at 0 (omega arith);
  through_target = word_at 1 (omega arith);
  jump_word = word_at 2 (omega arith);
  jumped_target =
      ap (get_elem? (join through jumped target left right rest g).opcodes)
        (omega (arith, size_patched))
      ∙ get_elem?-closed_code_last patched jumped word _ before
          (omega (arith, behind, size_patched));
  jumped_word =
      ap (get_elem? (join through jumped target left right rest g).opcodes) (sym size_patched)
      ∙ behind_both.0;
  size =
      length-closed_code patched jumped word _ _
      ∙ omega (
        arith,
        long,
        length-set code left (pos (length code)),
        length-set (set code left (pos (length code))) right
            (pos (length (set code left (pos (length code))))),
      );
  kept = λ p inside nl nr.
      read p inside
      ∙ (get_elem?-set_ne (set code left (pos (length code))) right p _ nr
          ∙ (get_elem?-set_ne code left p (pos (length code)) nl ∙ start p inside));
}
  where
    word : ℤ
    word = address_word target.mode target.address

    code : List ℤ
    code = (((g.opcodes ++ through ∷ []) ++ word ∷ []) ++ opcode_jump ∷ []) ++ pos 0 ∷ []

    before : ℕ
    before = length (((g.opcodes ++ through ∷ []) ++ word ∷ []) ++ opcode_jump ∷ [])

    patched : List ℤ
    patched =
        set (set code left (pos (length code))) right
          (pos (length (set code left (pos (length code)))))

    to : ℤ
    to = pos (length g.opcodes + 4)

    behind : before ≡ length g.opcodes + 3
    behind = omega (
      arith,
      length-append g.opcodes (through ∷ []),
      length-append (g.opcodes ++ through ∷ []) (word ∷ []),
      length-append ((g.opcodes ++ through ∷ []) ++ word ∷ []) (opcode_jump ∷ []),
    )

    long : length code ≡ length g.opcodes + 4
    long = omega (
      arith,
      behind,
      length-append (((g.opcodes ++ through ∷ []) ++ word ∷ []) ++ opcode_jump ∷ []) (pos 0 ∷ []),
    )

    size_patched : length patched ≡ length g.opcodes + 4
    size_patched = omega (
      arith,
      long,
      length-set code left (pos (length code)),
      length-set (set code left (pos (length code))) right
          (pos (length (set code left (pos (length code))))),
    )

    read :
        (p : ℕ)
        → p < length g.opcodes
        → get_elem? (join through jumped target left right rest g).opcodes p ≡ get_elem? patched p
    read p inside =
        get_elem?-closed_code patched jumped word _ before p (omega (arith, inside, size_patched))
          (λ e. omega (arith, e, behind, inside))

    both : (p : ℕ) → get_elem? patched p ≡ get_elem? (set (set code left to) right to) p
    both p = rw (length-set code left (pos (length code)), long) refl

    behind_both :
        (get_elem? (join through jumped target left right rest g).opcodes (length patched)
          ≡ some jumped)
        × (get_elem? (join through jumped target left right rest g).opcodes before
            ≡ some (pos (length ((patched ++ jumped ∷ []) ++ word ∷ []))))
    behind_both =
        closed_code-behind patched jumped word _ before (omega (arith, behind, size_patched))

    layout : code ≡ g.opcodes ++ through ∷ word ∷ opcode_jump ∷ pos 0 ∷ []
    layout =
        append_assoc ((g.opcodes ++ through ∷ []) ++ word ∷ []) (opcode_jump ∷ []) (pos 0 ∷ [])
        ∙ (append_assoc (g.opcodes ++ through ∷ []) (word ∷ []) (opcode_jump ∷ pos 0 ∷ [])
            ∙ append_assoc g.opcodes (through ∷ []) (word ∷ opcode_jump ∷ pos 0 ∷ []))

    -- The words that stand behind the operands.
    word_at :
        (k : ℕ)
        → k < 3
        → get_elem? (join through jumped target left right rest g).opcodes (length g.opcodes + k)
          ≡ get_elem? (through ∷ word ∷ opcode_jump ∷ pos 0 ∷ []) k
    word_at k small =
        get_elem?-closed_code patched jumped word _ before (length g.opcodes + k)
          (omega (arith, size_patched, small)) (λ e. omega (arith, e, behind, small))
        ∙ (get_elem?-set_ne (set code left (pos (length code))) right (length g.opcodes + k) _
              (λ e. omega (arith, e, r))
            ∙ (get_elem?-set_ne code left (length g.opcodes + k) (pos (length code))
                  (λ e. omega (arith, e, l))
                ∙ rw layout
                    (get_elem?-append_at g.opcodes (through ∷ word ∷ opcode_jump ∷ pos 0 ∷ []) k)))

    start : (p : ℕ) → p < length g.opcodes → get_elem? code p ≡ get_elem? g.opcodes p
    start p inside =
        rw layout
          (get_elem?-append_lt g.opcodes (through ∷ word ∷ opcode_jump ∷ pos 0 ∷ []) p inside)

write_end_logic-IsJoined :
    (through jumped : ℤ) (target : Address) (left right : ℕ) (waiting rest : List ℕ) (g : Generator)
    → waiting ≡ right ∷ left ∷ rest
    → left < length g.opcodes
    → right < length g.opcodes
    → (h : Generator) × (write_end_logic through jumped target waiting g ≡ some h)
      × (h.logic_operator_jump_positions ≡ rest)
      × IsJoined through jumped target left right g h
unfolding write_end_logic join patch_jump append append_address
write_end_logic-IsJoined through jumped target left right waiting rest g e l r = (
  join through jumped target left right rest g,
  rw e refl,
  refl,
  join-IsJoined through jumped target left right rest g l r,
)

-- Where the jumps of two operands wait inside the code, `and` and `or` add six words: an assignment for
-- where no operand jumped, a jump over the other assignment, and that, to which both operands jump.
-- The other words and the jumps that wait outside stay.
pub write_end_and-IsJoined :
    (target : Address) (left right : ℕ) (rest : List ℕ) (g : Generator)
    → g.logic_operator_jump_positions ≡ right ∷ left ∷ rest
    → left < length g.opcodes
    → right < length g.opcodes
    → ((h : Generator) × (write_end_and target g ≡ some h)
        × (h.logic_operator_jump_positions ≡ rest)
        × IsJoined opcode_assign_true opcode_assign_false target left right g h)
      × ((h : Generator) × (write_end_or target g ≡ some h)
          × (h.logic_operator_jump_positions ≡ rest)
          × IsJoined opcode_assign_false opcode_assign_true target left right g h)
unfolding write_end_and write_end_or
write_end_and-IsJoined target left right rest g waiting l r = (
  write_end_logic-IsJoined opcode_assign_true opcode_assign_false target left right _ rest g waiting
      l r,
  write_end_logic-IsJoined opcode_assign_false opcode_assign_true target left right _ rest g waiting
      l r,
)
