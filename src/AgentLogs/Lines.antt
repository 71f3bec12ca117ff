-- ===== src/AgentLogs/Lines.antt =====
-- pkg/agent/containers.go, `logLineWriter`: the lines do not depend on how the stream is cut.
use mathlib.Core.List.{append_assoc, append-nil}
use hostlink.Prelude.{
  ℕ, suc, ◌≤◌, ◌<◌, ◌≡◌, ◌≢◌, refl, sym, ap, ◌∙◌, subst, false, List, [], ◌∷◌, ◌++◌, ◌==◌,
  if◌then◌else◌, Text, length, leb, map, All, arith, Bool-cases, inl, inr, nat_comparable,
  text_comparable,
}
use hostlink.Strings.{split, cons_first}
use hostlink.AgentLogs.{
  max_log_line_bytes, trim_cr, LogLineWriter, new_writer, cons_byte, cut_lines, emit_line,
  emit_lines, write, flush,
}

-- The lines of a text, the carriage return before a newline left out; what stands behind the last
-- newline is a line if it is not empty.
unfoldable pub without_end : List Text → List Text
without_end [] = []
without_end (line ∷ []) = if line == [] then [] else line ∷ []
without_end (line ∷ next ∷ lines) = line ∷ without_end (next ∷ lines)

unfoldable pub log_lines : Text → List Text
unfolding split without_end trim_cr
log_lines s = map trim_cr (without_end (split 10 s))

unfoldable pub all_of : List Text → Text
all_of [] = []
all_of (p ∷ ps) = p ++ all_of ps

unfoldable pub write_all : List Text → LogLineWriter → LogLineWriter
unfolding write
write_all [] w = w
write_all (p ∷ ps) w = write_all ps (write p w)

abbrev pub IsShort : Text → Type 0
IsShort line = length line < max_log_line_bytes

cut_lines_byte :
    (c : ℕ) (s : Text)
    → cut_lines (c ∷ s)
      ≡ (if c == 10 then ([] ∷ (cut_lines s).0, (cut_lines s).1) else cons_byte c (cut_lines s))
unfolding cut_lines
cut_lines_byte c s = refl

-- A first part is cut as it would be alone, and what it leaves comes before the second part.
cut_lines-append :
    (s t : Text)
    → cut_lines (s ++ t) ≡ (
      (cut_lines s).0 ++ (cut_lines ((cut_lines s).1 ++ t)).0,
      (cut_lines ((cut_lines s).1 ++ t)).1,
    )
unfolding cut_lines cons_byte
cut_lines-append [] t = refl
cut_lines-append (c ∷ s) t = elim (Bool-cases (c == 10)) [
  | inl newline ↦ rw (newline, cut_lines-append s t) refl
  | inr other ↦ rw (other, cut_lines-append s t) (inside c (cut_lines s) t other)
]
  where
    inside :
        (c : ℕ) (r : List Text × Text) (t : Text)
        → (c == 10) ≡ false
        → cons_byte c (r.0 ++ (cut_lines (r.1 ++ t)).0, (cut_lines (r.1 ++ t)).1) ≡ (
          (cons_byte c r).0 ++ (cut_lines ((cons_byte c r).1 ++ t)).0,
          (cut_lines ((cons_byte c r).1 ++ t)).1,
        )
    inside c ([], rest) t other = rw other refl
    inside c (line ∷ lines, rest) t other = refl

abbrev HasNoNewline : Text → Type 0
HasNoNewline s = All (λ c. c ≢ 10) s

cons_byte-HasNoNewline :
    (c : ℕ) (r : List Text × Text) → c ≢ 10 → HasNoNewline r.1 → HasNoNewline (cons_byte c r).1
unfolding cons_byte
cons_byte-HasNoNewline c ([], rest) n a = (n, a)
cons_byte-HasNoNewline c (line ∷ lines, rest) n a = a

cut_lines-HasNoNewline : (s : Text) → HasNoNewline (cut_lines s).1
unfolding cut_lines
cut_lines-HasNoNewline [] = tt
cut_lines-HasNoNewline (c ∷ s) = elim (Bool-cases (c == 10)) [
  | inl newline ↦ rw newline (cut_lines-HasNoNewline s)
  | inr other ↦
      rw other (cons_byte-HasNoNewline c (cut_lines s) (ground arith) (cut_lines-HasNoNewline s))
]

cut_lines-whole : (s : Text) → HasNoNewline s → cut_lines s ≡ ([], s)
unfolding cut_lines cons_byte
cut_lines-whole [] a = refl
cut_lines-whole (c ∷ s) a =
    let other : (c == 10) ≡ false = ground (arith, a.0) in rw (other, cut_lines-whole s a.1) refl

-- How long the first line is so far.
first_length : List Text × Text → ℕ
first_length ([], rest) = length rest
first_length (line ∷ lines, rest) = length line

first_length-cons_byte :
    (c : ℕ) (r : List Text × Text) → first_length (cons_byte c r) ≡ suc (first_length r)
unfolding first_length cons_byte
first_length-cons_byte c ([], rest) = refl
first_length-cons_byte c (line ∷ lines, rest) = refl

first_length_ge : (s t : Text) → HasNoNewline s → length s ≤ first_length (cut_lines (s ++ t))
unfolding cut_lines
first_length_ge [] t a = omega arith
first_length_ge (c ∷ s) t a =
    let other : (c == 10) ≡ false = ground (arith, a.0) in
    rw other (omega (arith, first_length_ge s t a.1, first_length-cons_byte c (cut_lines (s ++ t))))

abbrev AreShort : List Text × Text → Type 0
AreShort r = All IsShort r.0 × IsShort r.1

AreShort-first_length : (r : List Text × Text) → AreShort r → first_length r < max_log_line_bytes
unfolding first_length
AreShort-first_length ([], rest) a = a.1
AreShort-first_length (line ∷ lines, rest) a = a.0.0

All-drop_front : (xs ys : List Text) → All IsShort (xs ++ ys) → All IsShort ys
All-drop_front [] ys a = a
All-drop_front (x ∷ xs) ys a = All-drop_front xs ys a.1

map-append : (xs ys : List Text) → map trim_cr (xs ++ ys) ≡ map trim_cr xs ++ map trim_cr ys
map-append [] ys = refl
map-append (x ∷ xs) ys = ap (λ l. trim_cr x ∷ l) (map-append xs ys)

emit_lines_lem :
    (lines : List Text) (w : LogLineWriter)
    → emit_lines lines w ≡ record w { emitted = w.emitted ++ map trim_cr lines }
unfolding emit_lines emit_line
emit_lines_lem [] w = ap (λ l. record w { emitted = l }) (sym (append-nil w.emitted))
emit_lines_lem (line ∷ lines) w =
    emit_lines_lem lines (emit_line line w)
    ∙ ap (λ l. record w { emitted = l })
        (append_assoc w.emitted (trim_cr line ∷ []) (map trim_cr lines))

-- A write that leaves less than the bound behind its last newline.
write_lem :
    (p : Text) (w : LogLineWriter)
    → IsShort (cut_lines (w.buf ++ p)).1
    → write p w ≡ record {
      buf = (cut_lines (w.buf ++ p)).1;
      emitted = w.emitted ++ map trim_cr (cut_lines (w.buf ++ p)).0;
    }
unfolding write
write_lem p w short =
    let low : leb max_log_line_bytes (length (cut_lines (w.buf ++ p)).1) ≡ false = ground arith in
    rw (low, write)
      (ap (λ (x : LogLineWriter). record x { buf = (cut_lines (w.buf ++ p)).1 })
        (emit_lines_lem (cut_lines (w.buf ++ p)).0 w))

write_all_lem :
    (ps : List Text) (w : LogLineWriter)
    → HasNoNewline w.buf
    → AreShort (cut_lines (w.buf ++ all_of ps))
    → write_all ps w ≡ record {
      buf = (cut_lines (w.buf ++ all_of ps)).1;
      emitted = w.emitted ++ map trim_cr (cut_lines (w.buf ++ all_of ps)).0;
    }
unfolding write_all all_of
write_all_lem [] w a short =
    let e = ap cut_lines (append-nil w.buf) ∙ cut_lines-whole w.buf a in
    rw e (ap (λ l. record w { emitted = l }) (sym (append-nil w.emitted)))
write_all_lem (p ∷ ps) w a short =
    let first = cut_lines (w.buf ++ p) in
    let rest = cut_lines (first.1 ++ all_of ps) in
    let e =
      ap cut_lines (sym (append_assoc w.buf p (all_of ps)))
      ∙ cut_lines-append (w.buf ++ p) (all_of ps) in
    let short' = subst AreShort e short in
    let next : AreShort rest = (All-drop_front first.0 rest.0 short'.0, short'.1) in
    let clean = cut_lines-HasNoNewline (w.buf ++ p) in
    let low : IsShort first.1 =
      omega (arith, first_length_ge first.1 (all_of ps) clean, AreShort-first_length rest next) in
    let w' : LogLineWriter = record { buf = first.1; emitted = w.emitted ++ map trim_cr first.0 } in
    ap (write_all ps) (write_lem p w low)
    ∙ write_all_lem ps w' clean next
    ∙ ap (λ l. record { buf = rest.1; emitted = l })
        (append_assoc w.emitted (map trim_cr first.0) (map trim_cr rest.0)
          ∙ ap (λ l. w.emitted ++ l) (sym (map-append first.0 rest.0)))
    ∙ ap (λ r. record { buf = r.1; emitted = w.emitted ++ map trim_cr r.0 }) (sym e)

cons_first-cons_byte :
    (c : ℕ) (r : List Text × Text)
    → cons_first c (r.0 ++ r.1 ∷ []) ≡ (cons_byte c r).0 ++ (cons_byte c r).1 ∷ []
unfolding cons_byte
cons_first-cons_byte c ([], rest) = refl
cons_first-cons_byte c (line ∷ lines, rest) = refl

split-cut_lines : (s : Text) → split 10 s ≡ (cut_lines s).0 ++ (cut_lines s).1 ∷ []
unfolding split cut_lines
split-cut_lines [] = refl
split-cut_lines (c ∷ s) = elim (Bool-cases (c == 10)) [
  | inl newline ↦ rw newline (ap (λ l. [] ∷ l) (split-cut_lines s))
  | inr other ↦
      rw other (ap (cons_first c) (split-cut_lines s) ∙ cons_first-cons_byte c (cut_lines s))
]

abbrev tail_line : Text → List Text
tail_line [] = []
tail_line (b ∷ bs) = (b ∷ bs) ∷ []

without_end_lem :
    (lines : List Text) (rest : Text) → without_end (lines ++ rest ∷ []) ≡ lines ++ tail_line rest
unfolding without_end
without_end_lem [] [] = ground arith
without_end_lem [] (b ∷ bs) = ground arith
without_end_lem (line ∷ []) rest = ap (λ l. line ∷ l) (without_end_lem [] rest)
without_end_lem (line ∷ next ∷ lines) rest =
    ap (λ l. line ∷ l) (without_end_lem (next ∷ lines) rest)

flush_lem :
    (rest : Text) (lines : List Text)
    → flush (record { buf = rest; emitted = lines })
      ≡ record { buf = []; emitted = lines ++ map trim_cr (tail_line rest) }
unfolding flush emit_line
flush_lem [] lines = ap (λ l. record { buf = []; emitted = l }) (sym (append-nil lines))
flush_lem (b ∷ bs) lines = refl

All-split :
    (lines : List Text) (rest : Text) → All IsShort (lines ++ rest ∷ []) → AreShort (lines, rest)
All-split [] rest a = (tt, a.0)
All-split (line ∷ lines) rest a = let s = All-split lines rest a.1 in ((a.0, s.0), s.1)

-- However a log stream is cut into writes, if no line of it reaches 65536 bytes: the lines that are
-- emitted, with the flush at the end, are exactly its lines in order, each without the carriage return
-- before its newline, and nothing is left in the buffer.
pub log_lines_lem :
    (ps : List Text)
    → All IsShort (split 10 (all_of ps))
    → flush (write_all ps new_writer) ≡ record { buf = []; emitted = log_lines (all_of ps) }
unfolding log_lines
log_lines_lem ps short =
    let s = all_of ps in
    let short' =
      All-split (cut_lines s).0 (cut_lines s).1 (subst (All IsShort) (split-cut_lines s) short) in
    ap flush (write_all_lem ps new_writer tt short')
    ∙ flush_lem (cut_lines s).1 (map trim_cr (cut_lines s).0)
    ∙ ap (λ l. record { buf = []; emitted = l })
        (sym (map-append (cut_lines s).0 (tail_line (cut_lines s).1))
          ∙ ap (map trim_cr) (
              sym (without_end_lem (cut_lines s).0 (cut_lines s).1)
              ∙ ap without_end (sym (split-cut_lines s))))
