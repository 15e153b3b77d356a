-- ===== src/Dashboard/Traffic/Laws.antt =====
-- The buffer keeps the newest entries; the stream shows what matches, with its texts escaped.
use mathlib.Core.List.{reverse, reverse-cons}
use proxy_redirector.Prelude.{
  ℕ, suc, ◌<◌, min, ◌≡◌, refl, ap, ◌∙◌, sym, List, [], ◌∷◌, ◌++◌, arith, ltb, ltb_false→le, length,
  take, filter, length-take, length-filter, take_all, take-append-take, append_assoc, Bool-cases,
  inl, inr, All,
}
use proxy_redirector.Dashboard.Escape.Laws.{IsInert, escape_html-IsInert}
use proxy_redirector.Dashboard.Traffic.{
  Entry, Stream, Row, Shown, rows, buffer_limit, row_limit, push_traffic_entry,
  render_traffic_stream, row_list, row, matches,
}

-- The entries pushed one after the other.
abbrev pub push_all : List Entry → Stream → Stream
push_all [] s = s
push_all (e ∷ es) s = push_all es (push_traffic_entry e s)

push_buffer :
    (e : Entry) (s : Stream) → (push_traffic_entry e s).buffer ≡ take buffer_limit (e ∷ s.buffer)
unfolding push_traffic_entry
push_buffer e s = elim (Bool-cases (ltb buffer_limit (length (e ∷ s.buffer)))) [
  | inl h ↦ rw h
  | inr h ↦ rw h (sym (take_all buffer_limit (e ∷ s.buffer) (ground arith)))
]

-- However the buffer was filled before, after pushes of at least one entry it holds the newest 500
-- of the pushed entries, newest first, and of the older ones behind them.
pub push_all-buffer :
    (es : List Entry) (s : Stream)
    → 0 < length es
    → (push_all es s).buffer ≡ take buffer_limit (reverse es ++ s.buffer)
push_all-buffer [] s h = elim h [ ]
push_all-buffer (e ∷ []) s h = push_buffer e s
push_all-buffer (e ∷ f ∷ es) s h =
    push_all-buffer (f ∷ es) (push_traffic_entry e s) (omega arith)
    ∙ ap (λ b. take buffer_limit (reverse (f ∷ es) ++ b)) (push_buffer e s)
    ∙ take-append-take buffer_limit buffer_limit (reverse (f ∷ es)) (e ∷ s.buffer) (omega arith)
    ∙ ap (take buffer_limit) (rw (reverse-cons e (f ∷ es), append_assoc))

abbrev pub shown_count : Shown → ℕ
shown_count (rows rs) = length rs
shown_count _ = 0

length-row_list : (es : List Entry) → length (row_list es) ≡ length es
length-row_list [] = refl
length-row_list (e ∷ es) = ap suc (length-row_list es)

-- The number of rows is that of the matching entries, but at most 100.
pub shown_count-render :
    (s : Stream)
    → shown_count (render_traffic_stream s) ≡ min row_limit (length (filter (matches s) s.buffer))
unfolding render_traffic_stream
shown_count-render s =
    let es = filter (matches s) s.buffer in
    elim (Bool-cases (ltb 0 (length s.buffer))) [
      | inl h ↦ rw h (elim (Bool-cases (ltb 0 (length es))) [
        | inl k ↦ rw k (length-row_list (take row_limit es) ∙ length-take row_limit es)
        | inr k ↦ rw k (omega (arith, ltb_false→le 0 (length es) k))
      ])
      | inr h ↦
          rw h
            (omega (arith, ltb_false→le 0 (length s.buffer) h, length-filter (matches s) s.buffer))
    ]

-- A row whose texts have no character that could end an attribute or open a tag.
abbrev pub IsInertRow : Row → Type 0
IsInertRow r =
    All IsInert r.timestamp
    × All IsInert r.client
    × All IsInert r.protocol
    × All IsInert r.destination

row_list-IsInert : (es : List Entry) → All IsInertRow (row_list es)
unfolding row
row_list-IsInert [] = tt
row_list-IsInert (e ∷ es) = (
  (
    escape_html-IsInert e.timestamp,
    escape_html-IsInert _,
    escape_html-IsInert _,
    escape_html-IsInert _,
  ),
  row_list-IsInert es,
)

abbrev pub shown_rows : Shown → List Row
shown_rows (rows rs) = rs
shown_rows _ = []

-- Every text of every shown row is escaped: it has no character that could end an attribute or
-- open a tag.
pub render-IsInert : (s : Stream) → All IsInertRow (shown_rows (render_traffic_stream s))
unfolding render_traffic_stream
render-IsInert s =
    let es = filter (matches s) s.buffer in
    elim (Bool-cases (ltb 0 (length s.buffer))) [
      | inl h ↦ rw h (elim (Bool-cases (ltb 0 (length es))) [
        | inl k ↦ rw k (row_list-IsInert (take row_limit es))
        | inr k ↦ rw k tt
      ])
      | inr h ↦ rw h tt
    ]
