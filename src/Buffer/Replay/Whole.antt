-- ===== src/Buffer/Replay/Whole.antt =====
-- Calls of `scan` up to the end of file: the tokens that the parser is given.
use barista_script.Common.{
  ℕ, zero, suc, ◌+◌, ◌-◌, ◌*◌, ◌≤◌, ◌<◌, ◌≡◌, refl, ap, Bool, true, false, Option, none, some, List,
  [], ◌∷◌, length, get_elem?, if◌then◌else◌, arith, drop, All,
}
use barista_script.Host.{Host}
use barista_script.Token.Types.{TokenType}
use barista_script.Token.Data.{Token}
use barista_script.Buffer.Write.{is_eof}
use barista_script.Buffer.State.{TokenizerBuffer}
use barista_script.Buffer.Replay.{State, scan}
use barista_script.Buffer.Replay.Effects.{
  KeepsTables, kept_tokens, Effect, emits_newline, emits_indent, emits_dedent, emits_stored,
  emits_end, open_indents, due_indents, Does,
}
use barista_script.Buffer.Replay.Step.{scan-Does}

-- The stored tokens in their order, with layout tokens between them: INDENTs and DEDENTs are nested,
-- from a given depth down to 0, and the end of file comes last.
pub data Layout {V : Type 0} : List (Token V) → ℕ → List (Token V) → Type 0 where
  at_eof : {t : Token V} → t.type ≡ TokenType.tk_eof → Layout [] 0 (t ∷ [])
  stored :
      {t : Token V} {ts out : List (Token V)} {d : ℕ}
      → Layout ts d out
      → Layout (t ∷ ts) d (t ∷ out)
  newline :
      {t : Token V} {ts out : List (Token V)} {d : ℕ}
      → t.type ≡ TokenType.newline
      → Layout ts d out
      → Layout ts d (t ∷ out)
  indent :
      {t : Token V} {ts out : List (Token V)} {d : ℕ}
      → t.type ≡ TokenType.indent
      → Layout ts (suc d) out
      → Layout ts d (t ∷ out)
  dedent :
      {t : Token V} {ts out : List (Token V)} {d : ℕ}
      → t.type ≡ TokenType.dedent
      → Layout ts d out
      → Layout ts (suc d) (t ∷ out)

-- Calls that a state may need: four for each token left, and one for each change of indentation.
abbrev waits : Bool → ℕ
waits true = 0
waits false = 3

abbrev pub calls : {V : Type 0} → TokenizerBuffer V → ℕ
calls s =
    4 * (length s.tokens - s.current)
    + open_indents s
    + due_indents s
    + waits s.last_token_was_newline
    + 1

drop-get_elem? :
    {A : Type 0} (xs : List A) (i : ℕ) (x : A)
    → get_elem? xs i ≡ some x
    → (drop i xs ≡ x ∷ drop (suc i) xs) × (i < length xs)
drop-get_elem? [] i x e = absurd (ground arith)
drop-get_elem? (y ∷ xs) zero x e = (ground arith, omega arith)
drop-get_elem? (y ∷ xs) (suc i) x e = let (p, q) = drop-get_elem? xs i x e in (p, omega arith)

All-split :
    {A : Type 0} (P : A → Type 0) {xs ys : List A} {x : A} → xs ≡ x ∷ ys → All P xs → P x × All P ys
All-split P e h = rw (e) at h

drop_all : {A : Type 0} (xs : List A) (i : ℕ) → length xs ≤ i → drop i xs ≡ []
drop_all [] zero h = refl
drop_all [] (suc i) h = refl
drop_all (x ∷ xs) zero h = absurd (omega arith)
drop_all (x ∷ xs) (suc i) h = drop_all xs i (omega arith)

module _ (host : Host) where
  open host use {Variant}

  -- The tokens up to the first end of file, from as many calls as there is fuel.
  unfoldable pub replay : ℕ → State host → Option (List (Token Variant))
  replay zero s = none
  replay (suc fuel) s = elim (scan host s) [
    | none ↦ none
    | some (t, s') ↦
        let rest = replay fuel s' in
        if is_eof t.type
        then some (t ∷ [])
        else elim rest [ none ↦ none | some out ↦ some (t ∷ out) ]
  ]

  replay_stop :
      (fuel : ℕ) (s s' : State host) (t : Token Variant)
      → scan host s ≡ some (t, s')
      → is_eof t.type ≡ true
      → replay (suc fuel) s ≡ some (t ∷ [])
  unfolding replay
  replay_stop fuel s s' t e h = rw (e, replay) (rw (h) refl)

  replay_step :
      (fuel : ℕ) (s s' : State host) (t : Token Variant) (out : List (Token Variant))
      → scan host s ≡ some (t, s')
      → is_eof t.type ≡ false
      → replay fuel s' ≡ some out
      → replay (suc fuel) s ≡ some (t ∷ out)
  unfolding replay
  replay_step fuel s s' t out e h r = rw (e, replay) (rw (h, r) refl)

  -- What is left to read ends with no end of file of its own.
  abbrev pub NoEof : State host → Type 0
  NoEof s = All (λ t. is_eof t.type ≡ false) (drop s.current s.tokens)

  abbrev Answer : ℕ → State host → ℕ → Type 0
  Answer fuel s d =
      (out : List (Token Variant)) × (replay fuel s ≡ some out)
      × Layout (drop s.current s.tokens) d out

  abbrev Answers : ℕ → Type 0
  Answers fuel =
      (s : State host) (d : ℕ)
      → calls s ≤ fuel
      → d + due_indents s ≡ open_indents s
      → NoEof s
      → Answer fuel s d

  -- A call that leaves `current` where it was: the rest follows, and the token stands before it.
  Answer-layout :
      (fuel d d' : ℕ) (s s' : State host) (t : Token Variant)
      → Answers fuel
      → scan host s ≡ some (t, s')
      → is_eof t.type ≡ false
      → KeepsTables s s'
      → s'.current ≡ s.current
      → calls s' ≤ fuel
      → d' + due_indents s' ≡ open_indents s'
      → NoEof s
      → ((out : List (Token Variant))
          → Layout (drop s.current s.tokens) d' out
          → Layout (drop s.current s.tokens) d (t ∷ out))
      → Answer (suc fuel) s d
  Answer-layout fuel d d' s s' t ih e h k c m b n put =
      let same : drop s'.current s'.tokens ≡ drop s.current s.tokens = rw (c, kept_tokens k) refl in
      let (out, r, l) = ih s' d' m b (rw (same) n) in
      (t ∷ out, replay_step fuel s s' t out e h r, put out (rw (← same) l))

  Answer-Effect :
      (fuel d : ℕ) (s s' : State host) (t : Token Variant)
      → Answers fuel
      → scan host s ≡ some (t, s')
      → KeepsTables s s'
      → Effect s t s'
      → calls s ≤ suc fuel
      → d + due_indents s ≡ open_indents s
      → NoEof s
      → Answer (suc fuel) s d
  Answer-Effect fuel d s s' t ih e k (emits_newline a b f g h i) m p n =
      Answer-layout fuel d d s s' t ih e (rw (a) refl) k g
        (omega (arith, h, i, m, ap length (kept_tokens k), g, ap waits b, ap waits f))
        (omega (arith, h, p)) n (λ out l. newline a l)
  Answer-Effect fuel d s s' t ih e k (emits_indent a b f g h) m p n =
      Answer-layout fuel d (suc d) s s' t ih e (rw (a) refl) k f
        (omega (arith, g, h, m, ap length (kept_tokens k), f, ap waits b)) (omega (arith, g, h, p))
        n (λ out l. indent a l)
  Answer-Effect fuel zero s s' t ih e k (emits_dedent a b f g g' h) m p n =
      absurd (omega (arith, g, h, p))
  Answer-Effect fuel (suc d) s s' t ih e k (emits_dedent a b f g g' h) m p n =
      Answer-layout fuel (suc d) d s s' t ih e (rw (a) refl) k f
        (omega (arith, g, g', h, m, ap length (kept_tokens k), f, ap waits b))
        (omega (arith, g, g', h, p)) n (λ out l. dedent a l)
  Answer-Effect fuel d s s' t ih e k (emits_stored a b f g h) m p n =
      let (q, inside) = drop-get_elem? s.tokens s.current t a in
      let n' = All-split (λ u. is_eof u.type ≡ false) q n in
      let same : drop s'.current s'.tokens ≡ drop (suc s.current) s.tokens =
        rw (b, kept_tokens k) refl in
      let (out, r, l) =
        ih s' d (omega (arith, g, h, m, ap length (kept_tokens k), b, ap waits f, inside))
          (omega (arith, g, h, p)) (rw (same) n'.1) in
      (t ∷ out, replay_step fuel s s' t out e n'.0 r, rw (q) (stored (rw (← same) l)))
  Answer-Effect fuel d s s' t ih e k (emits_end a b f g h _ _ _ _) m p n =
      let d0 : d ≡ 0 = omega (arith, g, h, p) in
      (
        t ∷ [],
        replay_stop fuel s s' t e (rw (a) refl),
        rw (drop_all s.tokens s.current b, d0) (at_eof a),
      )

  Answer-call :
      (fuel d : ℕ) (s : State host) (r : Option (Token Variant × State host))
      → Answers fuel
      → scan host s ≡ r
      → Does host s r
      → calls s ≤ suc fuel
      → d + due_indents s ≡ open_indents s
      → NoEof s
      → Answer (suc fuel) s d
  Answer-call fuel d s none ih e x m p n = absurd x
  Answer-call fuel d s (some (t, s')) ih e (k, _, x) m p n =
      Answer-Effect fuel d s s' t ih e k x m p n

  -- From a state that owes d DEDENTs, and whose stored tokens have no end of file among them, calls of
  -- `scan` reach the end of file, in at most `calls s` of them. They give the stored tokens from
  -- `current` on, each once and in order, with NEWLINEs, INDENTs and DEDENTs between them such that
  -- every INDENT is closed, no DEDENT comes without its indentation, and the end of file is last.
  pub replay-Layout :
      (fuel : ℕ) (s : State host) (d : ℕ)
      → calls s ≤ fuel
      → d + due_indents s ≡ open_indents s
      → NoEof s
      → (out : List (Token Variant)) × (replay fuel s ≡ some out)
        × Layout (drop s.current s.tokens) d out
  replay-Layout zero s d m p n = absurd (omega (arith, m))
  replay-Layout (suc fuel) s d m p n =
      Answer-call fuel d s (scan host s) (replay-Layout fuel) refl (scan-Does host s) m p n
