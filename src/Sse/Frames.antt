-- ===== src/Sse/Frames.antt =====
-- The wire format of events, and the frames read from it (frontend/src/lib/sse.ts).
use it_automation_workspace.Common.{
  false, Option, none, some, List, [], ◌∷◌, ◌++◌, Text, codes, map, lf, cr, split_on, join, trim,
  if◌then◌else◌, ◌≡◌, ◌≢◌, refl, arith, ap, ap₂, sym, ◌∙◌, All, append_assoc, append-nil,
}
use it_automation_workspace.Sse.{SseFrame, FrameLines, read_line, read_lines, no_lines, parse_frame}

-- No line end.
abbrev pub IsPlain : Text → Type 0
IsPlain [] = Unit
IsPlain (c ∷ s) = (c ≢ lf) × (c ≢ cr) × IsPlain s

-- An event to be sent: its name, and the lines of its content.
pub record Message : Type 0 where
  pub event : Text
  pub content : List Text

abbrev pub IsTrimmed : Text → Type 0
IsTrimmed t = IsPlain t × (trim t ≡ t)

abbrev pub IsMessage : Message → Type 0
IsMessage m = IsTrimmed m.event × All IsTrimmed m.content

abbrev pub event_line : Text → Text
event_line name = codes "event: " ++ name

abbrev pub data_line : Text → Text
data_line line = codes "data: " ++ line

abbrev pub lines_of : Message → List Text
lines_of m = event_line m.event ∷ map data_line m.content

-- The wire format: each line ends with `eol`, and an empty line ends the event.
abbrev pub encode_lines : Text → List Text → Text
encode_lines eol [] = eol
encode_lines eol (l ∷ ls) = l ++ (eol ++ encode_lines eol ls)

abbrev pub encode : Text → List Message → Text
encode eol [] = []
encode eol (m ∷ ms) = encode_lines eol (lines_of m) ++ encode eol ms

abbrev pub frame_of : Message → SseFrame
frame_of m = record { event = m.event; content = join (lf ∷ []) m.content }

split_on-append : (l s : Text) → IsPlain l → split_on lf (l ++ lf ∷ s) ≡ l ∷ split_on lf s
split_on-append [] s h = refl
split_on-append (c ∷ l) s h = ground (arith, split_on-append l s h.2)

split_on_of_IsPlain : (l : Text) → IsPlain l → split_on lf l ≡ l ∷ []
split_on_of_IsPlain [] h = refl
split_on_of_IsPlain (c ∷ l) h = ground (arith, split_on_of_IsPlain l h.2)

split_on-join :
    (l : Text) (ls : List Text)
    → All IsPlain (l ∷ ls)
    → split_on lf (join (lf ∷ []) (l ∷ ls)) ≡ l ∷ ls
split_on-join l [] h = split_on_of_IsPlain l h.0
split_on-join l (m ∷ ls) h =
    split_on-append l (join (lf ∷ []) (m ∷ ls)) h.0 ∙ ap (λ r. l ∷ r) (split_on-join m ls h.1)

read_line-data_line :
    (acc : FrameLines) (d : Text)
    → trim d ≡ d
    → read_line acc (data_line d)
      ≡ record acc { data_lines = acc.data_lines ++ d ∷ []; is_comment_only = false }
unfolding read_line
read_line-data_line acc d h = rw h

read_lines-map :
    (acc : FrameLines) (ds : List Text)
    → All IsTrimmed ds
    → acc.is_comment_only ≡ false
    → read_lines acc (map data_line ds) ≡ record acc { data_lines = acc.data_lines ++ ds }
unfolding read_lines
read_lines-map acc [] h e = rw append-nil
read_lines-map acc (d ∷ ds) h e =
    ap (λ a. read_lines a (map data_line ds)) (read_line-data_line acc d h.0.1)
    ∙ read_lines-map (record acc { data_lines = acc.data_lines ++ d ∷ []; is_comment_only = false })
        ds h.1 refl
    ∙ ap₂ (λ xs b. record acc { data_lines = xs; is_comment_only = b })
        (append_assoc acc.data_lines (d ∷ []) ds) (sym e)

pub IsPlain-append : (a b : Text) → IsPlain a → IsPlain b → IsPlain (a ++ b)
IsPlain-append [] b h k = k
IsPlain-append (c ∷ a) b h k = (h.0, h.1, IsPlain-append a b h.2 k)

map-data_line-IsPlain : (ds : List Text) → All IsTrimmed ds → All IsPlain (map data_line ds)
map-data_line-IsPlain [] h = tt
map-data_line-IsPlain (d ∷ ds) h =
    (IsPlain-append (codes "data: ") d (omega arith) h.0.0, map-data_line-IsPlain ds h.1)

pub lines_of-IsPlain : (m : Message) → IsMessage m → All IsPlain (lines_of m)
lines_of-IsPlain m h = (
  IsPlain-append (codes "event: ") m.event (omega arith) h.0.0,
  map-data_line-IsPlain m.content h.1,
)

-- A frame that carries an event's name and the lines of its content is read back as these, with the
-- lines joined.
pub parse_frame-join :
    (m : Message) → IsMessage m → parse_frame (join (lf ∷ []) (lines_of m)) ≡ some (frame_of m)
unfolding parse_frame
parse_frame-join m h = ap finish (
    ap (read_lines no_lines)
      (split_on-join (event_line m.event) (map data_line m.content) (lines_of-IsPlain m h))
    ∙ ap (λ e. read_lines (named e) (map data_line m.content)) h.0.1
    ∙ read_lines-map (named m.event) m.content h.1 refl)
  where
    finish : FrameLines → Option SseFrame
    finish acc =
        if acc.is_comment_only
        then none
        else some (record { event = acc.event; content = join (lf ∷ []) acc.data_lines })

    named : Text → FrameLines
    named name = record { event = name; data_lines = []; is_comment_only = false }
