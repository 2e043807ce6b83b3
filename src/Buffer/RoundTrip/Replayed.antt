-- ===== src/Buffer/RoundTrip/Replayed.antt =====
-- From a source's tokens to the tokens that the parser is given: save, load and replay.
use barista_script.Common.{
  ◌+◌, ◌≡◌, refl, some, false, List, [], ◌∷◌, ◌++◌, map, drop, All, arith, Bytes,
}
use mathlib.Core.Path.{subst}
use barista_script.Common.Int.{ℤ}
use barista_script.Host.{Host}
use barista_script.Token.Data.{Token}
use barista_script.Buffer.Format.{ok}
use barista_script.Buffer.Write.{is_eof}
use barista_script.Buffer.Save.{CompressMode, parse_code_string}
use barista_script.Buffer.State.{TokenizerBuffer, new_buffer}
use barista_script.Buffer.Load.{set_code_buffer}
use barista_script.Buffer.Replay.Effects.{open_indents, due_indents}
use barista_script.Buffer.Replay.Whole.{Layout, replay, calls, NoEof, replay-Layout}
use barista_script.Buffer.RoundTrip.Tokens.{stored}
use barista_script.Buffer.RoundTrip.Saved.{IsCanonical, IsFile, set_code_buffer-parse_code_string}

module _ (host : Host) (P : host.Variant → Type 0) (canonical : IsCanonical host P) where
  open host use {Variant}

  stored-All :
      (ts : List (Token Variant × Token Variant))
      → All (λ e. is_eof e.0.type ≡ false) ts
      → All (λ t. is_eof t.type ≡ false) (map (λ e. stored host e.0) ts)
  stored-All [] h = tt
  stored-All (e ∷ ts) h = (h.0, stored-All ts h.1)

  restored-NoEof :
      (ts : List (Token Variant × Token Variant)) (s : TokenizerBuffer Variant)
      → s.tokens ≡ map (λ e. stored host e.0) ts
      → s.current ≡ 0
      → All (λ e. is_eof e.0.type ≡ false) ts
      → NoEof host s
  restored-NoEof ts s e c h = rw (e, c) (stored-All ts h)

  -- If the pool tells the constants apart: a file that is saved without compression, loaded into a new object and scanned to its end gives
  -- its tokens as they are stored, each once and in order, with layout tokens between them: the
  -- INDENTs and DEDENTs are nested and balanced, and the end of file comes last.
  pub replay-parse_code_string :
      (ts more : List (Token Variant × Token Variant)) (continuation : List ℤ)
      (eof nl : Token Variant)
      → IsFile host P ts eof nl
      → (buffer : Bytes) × (s : TokenizerBuffer Variant) × (out : List (Token Variant))
        × (parse_code_string host (ts ++ (eof, nl) ∷ more) continuation CompressMode.compress_none
            ≡ some buffer)
        × (set_code_buffer host new_buffer buffer ≡ ok s)
        × (replay host (calls s) s ≡ some out)
        × Layout (map (λ e. stored host e.0) ts) 0 out
  replay-parse_code_string ts more continuation eof nl file =
      let (buffer, s, written, loaded, r) =
        set_code_buffer-parse_code_string host P canonical ts continuation eof nl file more in
      let balanced : 0 + due_indents s ≡ open_indents s =
        rw (r.no_indents.0, r.no_indents.1) refl in
      let (out, e, l) =
        replay-Layout host (calls s) s 0 (omega arith) balanced
          (restored-NoEof ts s r.tokens r.at_start.0 file.before_eof) in
      let here : drop s.current s.tokens ≡ map (λ u. stored host u.0) ts =
        rw (r.at_start.0, r.tokens) refl in
      (buffer, s, out, written, loaded, e, subst (λ xs. Layout xs 0 out) here l)
