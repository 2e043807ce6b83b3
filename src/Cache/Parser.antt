-- ===== src/Cache/Parser.antt =====
-- src/bs_cache.cpp `BSParserRef`: a script's parser, raised from phase to phase.
use barista_script.Common.{
  ℕ, zero, suc, ◌≤◌, ◌<◌, ◌≢◌, ◌%◌, ◌≡◌, Bool, true, not, ◌&&◌, ◌||◌, if◌then◌else◌, ltb, ◌==◌,
  Text, u32_mod,
}

pub data Status : Type 0 where
  empty parsed inheritance_solved interface_solved fully_solved : Status

-- The order of the enumerators.
abbrev pub rank : Status → ℕ
rank Status.empty = 0
rank Status.parsed = 1
rank Status.inheritance_solved = 2
rank Status.interface_solved = 3
rank Status.fully_solved = 4

-- `result` is an `Error`: 0 is `OK`.
pub record ParserRef : Type 0 where
  pub status : Status
  pub result : ℕ
  pub source_hash : ℕ
  pub has_parser : Bool
  pub clearing : Bool

-- Two of the engine's `Error` numbers.
abbrev pub err_unavailable : ℕ
err_unavailable = 2

abbrev pub err_bug : ℕ
err_bug = 47

-- Reading the source, its hash, the parser and the three steps of the analyzer. They may raise the
-- same reference again, so that they give it back with their error.
pub record Phases : Type 0 where
  pub read_source_code : ℕ × Text
  pub hash : Text → ℕ
  pub parse : Text → ParserRef → ℕ × ParserRef
  pub resolve_inheritance : ParserRef → ℕ × ParserRef
  pub resolve_interface : ParserRef → ℕ × ParserRef
  pub resolve_body : ParserRef → ℕ × ParserRef

-- The result of a phase is stored when it returns.
abbrev pub store : ℕ × ParserRef → ParserRef
store (e, r) = record r { result = e }

module _ (phases : Phases) where
  unfoldable pub parse_source : ℕ × Text → ParserRef → ParserRef
  parse_source (error, source) r =
      let r1 = record r { source_hash = phases.hash source % u32_mod; result = error } in
      if error == 0 then store (phases.parse source r1) else r1

  -- One turn of the loop in `raise_status`.
  unfoldable pub advance : Status → ParserRef → ParserRef
  advance Status.empty r =
      parse_source phases.read_source_code (record r { has_parser = true; status = Status.parsed })
  advance Status.parsed r =
      store (phases.resolve_inheritance (record r { status = Status.inheritance_solved }))
  advance Status.inheritance_solved r =
      store (phases.resolve_interface (record r { status = Status.interface_solved }))
  advance Status.interface_solved r =
      store (phases.resolve_body (record r { status = Status.fully_solved }))
  advance Status.fully_solved r = r

  unfoldable pub raise_loop : ℕ → Status → ParserRef → ParserRef
  raise_loop zero new_status r = r
  raise_loop (suc fuel) new_status r =
      let more = raise_loop fuel new_status (advance r.status r) in
      if r.result == 0 && ltb (rank r.status) (rank new_status) then more else r

  -- The turns that a raise takes: a phase runs for a status below the one asked for, and only where
  -- the phase before has succeeded; the raise ends at the first failure or where the status is reached.
  pub data Raising (new_status : Status) : ParserRef → ParserRef → Type 0 where
    failed : (r : ParserRef) → r.result ≢ 0 → Raising new_status r r
    arrived : (r : ParserRef) → rank new_status ≤ rank r.status → Raising new_status r r
    took_turn :
        {r after : ParserRef}
        → r.result ≡ 0
        → rank r.status < rank new_status
        → Raising new_status (advance r.status r) after
        → Raising new_status r after

  -- Every turn goes up by one status at least, and there are four to go up.
  unfoldable pub raise_status : Status → ParserRef → ℕ × ParserRef
  raise_status new_status r =
      if r.clearing || (not r.has_parser && not (rank r.status == 0))
      then (err_bug, r)
      else let raised = raise_loop 4 new_status r in (raised.result, raised)

unfoldable pub get_result_for_status : Status → ParserRef → ℕ
get_result_for_status status r =
    if ltb (rank r.status) (rank status)
    then (if r.result == 0 then err_unavailable else r.result)
    else if ltb (rank status) (rank r.status)
    then 0
    else r.result

-- No phase lowers the status of the reference that it is run for.
pub record NeverLowers (phases : Phases) : Type 0 where
  pub parse :
      (source : Text) (r : ParserRef) → rank r.status ≤ rank (phases.parse source r).1.status
  pub resolve_inheritance :
      (r : ParserRef) → rank r.status ≤ rank (phases.resolve_inheritance r).1.status
  pub resolve_interface :
      (r : ParserRef) → rank r.status ≤ rank (phases.resolve_interface r).1.status
  pub resolve_body : (r : ParserRef) → rank r.status ≤ rank (phases.resolve_body r).1.status

-- The raise took its turns as it should. The status does not go down, and it reaches the one that is
-- asked for unless a phase failed.
pub record IsRaised (phases : Phases) (new_status : Status) (before after : ParserRef)
    : Type 0 where
  pub turns : Raising phases new_status before after
  pub kept : rank before.status ≤ rank after.status
  pub reached : after.result ≡ 0 → rank new_status ≤ rank after.status
