-- ===== src/Hooks/Lines.antt =====
-- The chunks in which a hook's output reaches the `sanitizingWriter` of src/domain/hook_executor.go.
use previewctl.Base.{
  cut-more, length-cut, ℕ, zero, suc, ◌+◌, ◌≤◌, Bool, true, none, some, [], ◌∷◌, ◌++◌, ◌≡◌, refl,
  sym, inl, inr, arith, Text, Option-cases, length, cut, length-append, append_assoc,
}
use previewctl.Hooks.{SanitizingWriter, write_lines, write, sanitize_output_line}

cut-nil : (c : ℕ) (a : Text) → length a ≡ 0 → cut c a ≡ none
unfolding cut
cut-nil c [] h = refl
cut-nil c (x ∷ a) h = absurd (omega (arith, h))

module _ {D : Type 0} (fprintln : Text → D → D × Bool)
    (accepts : (line : Text) (d : D) → (fprintln line d).1 ≡ true) where
  -- Fuel beyond the length of the buffer changes nothing.
  write_lines_fuel :
      (f g : ℕ) (w : SanitizingWriter D)
      → length w.buf ≤ f
      → length w.buf ≤ g
      → write_lines fprintln f w ≡ write_lines fprintln g w
  unfolding write_lines
  write_lines_fuel zero zero w hf hg = refl
  write_lines_fuel zero (suc g) w hf hg = ground (arith, cut-nil 0x0a w.buf)
  write_lines_fuel (suc f) zero w hf hg = ground (arith, cut-nil 0x0a w.buf)
  write_lines_fuel (suc f) (suc g) w hf hg = elim (Option-cases (cut 0x0a w.buf)) [
    | inl n ↦ ground arith
    | inr s ↦
        let w' : SanitizingWriter D = record {
          dest = (fprintln (sanitize_output_line s.0.0) w.dest).0;
          buf = s.0.1;
        } in
        ground (
          arith,
          length-cut 0x0a w.buf s.0.0 s.0.1,
          write_lines_fuel f g w',
          accepts (sanitize_output_line s.0.0) w.dest,
        )
  ]

  -- One round.
  write_lines_step :
      (g : ℕ) (w : SanitizingWriter D) (l r : Text)
      → cut 0x0a w.buf ≡ some (l, r)
      → length w.buf ≤ g
      → write_lines fprintln g w
        ≡ write_lines fprintln g
            (record { dest = (fprintln (sanitize_output_line l) w.dest).0; buf = r })
  unfolding write_lines
  write_lines_step zero w l r h hg = ground (arith, cut-nil 0x0a w.buf)
  write_lines_step (suc g) w l r h hg =
      let w' : SanitizingWriter D = record {
        dest = (fprintln (sanitize_output_line l) w.dest).0;
        buf = r;
      } in
      ground (
        arith,
        length-cut 0x0a w.buf l r,
        write_lines_fuel g (suc g) w',
        accepts (sanitize_output_line l) w.dest,
      )

  write_lines_stop :
      (f : ℕ) (w : SanitizingWriter D)
      → cut 0x0a w.buf ≡ none
      → write_lines fprintln f w ≡ (w, true)
  unfolding write_lines
  write_lines_stop zero w h = refl
  write_lines_stop (suc f) w h = ground arith

  -- The lines that are whole already go first.
  write_lines_append :
      (f g : ℕ) (w : SanitizingWriter D) (q : Text)
      → length w.buf ≤ f
      → length w.buf + length q ≤ g
      → let w' = (write_lines fprintln f w).0 in
        write_lines fprintln g (record w { buf = w.buf ++ q })
        ≡ write_lines fprintln g (record w' { buf = w'.buf ++ q })
  write_lines_append zero g w q hf hg =
      ground (arith, write_lines_stop zero w (cut-nil 0x0a w.buf (omega (arith, hf))))
  write_lines_append (suc f) g w q hf hg = elim (Option-cases (cut 0x0a w.buf)) [
    | inl n ↦ ground (arith, write_lines_stop (suc f) w)
    | inr s ↦
        let w' : SanitizingWriter D = record {
          dest = (fprintln (sanitize_output_line s.0.0) w.dest).0;
          buf = s.0.1;
        } in
        ground (
          arith,
          write_lines_step g (record w { buf = w.buf ++ q }) s.0.0 (s.0.1 ++ q),
          write_lines_step (suc f) w s.0.0 s.0.1,
          write_lines_fuel (suc f) f w',
          cut-more 0x0a w.buf q s.0.0 s.0.1,
          length-append w.buf q,
          length-append s.0.1 q,
          length-cut 0x0a w.buf s.0.0 s.0.1,
          write_lines_append f g w' q,
        )
  ]

  -- What is left in the buffer is not longer than what was there.
  length-write_lines :
      (f : ℕ) (w : SanitizingWriter D) → length (write_lines fprintln f w).0.buf ≤ length w.buf
  unfolding write_lines
  length-write_lines zero w = omega arith
  length-write_lines (suc f) w = elim (Option-cases (cut 0x0a w.buf)) [
    | inl n ↦ ground (arith)
    | inr s ↦
        let w' : SanitizingWriter D = record {
          dest = (fprintln (sanitize_output_line s.0.0) w.dest).0;
          buf = s.0.1;
        } in
        ground (
          arith,
          accepts (sanitize_output_line s.0.0) w.dest,
          length-cut 0x0a w.buf s.0.0 s.0.1,
          length-write_lines f w',
        )
  ]

  -- Where the destination reports no error, writing a text in two parts leaves the writer and the
  -- destination as writing it at once does, with the same result.
  pub write-append :
      (p q : Text) (w : SanitizingWriter D)
      → write fprintln q (write fprintln p w).0 ≡ write fprintln (p ++ q) w
  unfolding write
  write-append p q w =
      let v : SanitizingWriter D = record w { buf = w.buf ++ p } in
      let w' = (write_lines fprintln (length v.buf) v).0 in
      let n = length v.buf + length q in
      rw (sym (append_assoc w.buf p q)) (
        ground (
          arith,
          write_lines_append (length v.buf) n v q,
          write_lines_fuel (length (w'.buf ++ q)) n (record w' { buf = w'.buf ++ q }),
          length-append w'.buf q,
          length-append v.buf q,
          length-write_lines (length v.buf) v,
        ))
