-- ===== src/Gui/Console/Log.antt =====
-- The ring of log lines of gui/console.c holds the last 64 messages.
use entropy_os.Prelude.{
  ℕ, zero, suc, ◌+◌, ◌-◌, ◌*◌, ◌%◌, ◌<◌, ◌≤◌, ◌≡◌, refl, ap, ap₂, sym, subst, ◌∙◌, List, [], ◌∷◌,
  ◌++◌, map, length, length-append, length-map, length-set, get_or, get_or-set_self, get_or-set_ne,
  drop, set, take, ltb, if◌then◌else◌, dec_lt, arith,
}
use mathlib.Core.List.{append-nil, append_assoc}
use entropy_os.Gui.Fonts.{Font}
use entropy_os.Gui.Screen.{Screen}
use entropy_os.Gui.Console.{
  text_with_pos, draw_history, console_render_history, Logs, max_lines, max_line_length, no_logs,
  text, history_from,
}

-- a message as it is kept
abbrev pub kept : List ℕ → List ℕ
kept str = take (max_line_length - 1) str

-- all messages, in the order of the calls of `text`
unfoldable pub log_all : List (List ℕ) → Logs → Logs
log_all [] l = l
log_all (m ∷ ms) l = log_all ms (text m l)

-- The ring stands for a list of lines: it has room for the last 64 of them.
pub record Represents (l : Logs) (ks : List (List ℕ)) : Type 0 where
  pub room : length l.lines ≡ 64
  pub next : l.next ≡ length ks % 64
  pub count : l.count ≡ (if ltb (length ks) 64 then length ks else 64)
  pub at :
      (p : ℕ) → p < length ks → length ks ≤ p + 64 → get_or l.lines (p % 64) [] ≡ get_or ks p []

get_or-append_left :
    (xs ys : List (List ℕ)) (i : ℕ) → i < length xs → get_or (xs ++ ys) i [] ≡ get_or xs i []
get_or-append_left [] ys i h = absurd (omega arith)
get_or-append_left (x ∷ xs) ys zero h = refl
get_or-append_left (x ∷ xs) ys (suc i) h = get_or-append_left xs ys i (omega arith)

get_or-append_last : (xs : List (List ℕ)) (x : List ℕ) → get_or (xs ++ (x ∷ [])) (length xs) [] ≡ x
get_or-append_last [] x = refl
get_or-append_last (y ∷ xs) x = get_or-append_last xs x

no_logs-Represents : Represents no_logs []
no_logs-Represents = record {
  room = refl;
  next = refl;
  count = refl;
  at = λ p h k. absurd (omega arith);
}

text-Represents :
    (m : List ℕ) (l : Logs) (ks : List (List ℕ))
    → Represents l ks
    → Represents (text m l) (ks ++ (kept m ∷ []))
unfolding text
text-Represents m l ks r =
    let long = length-append ks (kept m ∷ []) in
    record {
      room = length-set l.lines l.next (kept m) ∙ r.room;
      next = omega (arith, long, r.next);
      count = ground (arith, long, r.count);
      at = λ p h k. place p h k;
    }
  where
    place :
        (p : ℕ)
        → p < length (ks ++ (kept m ∷ []))
        → length (ks ++ (kept m ∷ [])) ≤ p + 64
        → get_or (set l.lines l.next (kept m)) (p % 64) [] ≡ get_or (ks ++ (kept m ∷ [])) p []
    place p h k =
        let long = length-append ks (kept m ∷ []) in
        elim (dec_lt p (length ks)) [
          | yes lt ↦
              get_or-set_ne l.lines l.next (p % 64) (kept m) []
                (λ e. omega (arith, long, e, r.next))
              ∙ r.at p lt (omega (arith, long))
              ∙ sym (get_or-append_left ks (kept m ∷ []) p lt)
          | no ge ↦
              let last : p ≡ length ks = omega (arith, long) in
              let here : p % 64 ≡ l.next = omega (arith, last, r.next) in
              ap (λ (i : ℕ). get_or (set l.lines l.next (kept m)) i []) here
              ∙ get_or-set_self l.lines l.next (kept m) [] (omega (arith, r.next, r.room))
              ∙ sym (
                  ap (λ (i : ℕ). get_or (ks ++ (kept m ∷ [])) i []) last
                  ∙ get_or-append_last ks (kept m))
        ]

log_all-Represents :
    (ms : List (List ℕ)) (l : Logs) (ks : List (List ℕ))
    → Represents l ks
    → Represents (log_all ms l) (ks ++ map kept ms)
unfolding log_all
log_all-Represents [] l ks r = subst (Represents l) (sym (append-nil ks)) r
log_all-Represents (m ∷ ms) l ks r =
    subst (Represents (log_all ms (text m l))) (append_assoc ks (kept m ∷ []) (map kept ms))
      (log_all-Represents ms (text m l) (ks ++ (kept m ∷ [])) (text-Represents m l ks r))

drop-get_or :
    (xs : List (List ℕ)) (p : ℕ) → p < length xs → drop p xs ≡ get_or xs p [] ∷ drop (p + 1) xs
drop-get_or [] p h = absurd (omega arith)
drop-get_or (x ∷ xs) zero h = refl
drop-get_or (x ∷ xs) (suc p) h =
    let next : suc p + 1 ≡ suc (p + 1) = omega arith in
    drop-get_or xs p (omega arith) ∙ ap (λ (k : ℕ). get_or xs p [] ∷ drop k (x ∷ xs)) (sym next)

drop_past : (xs : List (List ℕ)) (n : ℕ) → length xs ≤ n → drop n xs ≡ []
drop_past [] zero h = refl
drop_past [] (suc n) h = refl
drop_past (x ∷ xs) zero h = absurd (omega arith)
drop_past (x ∷ xs) (suc n) h = drop_past xs n (omega arith)

count_lem :
    (l : Logs) (ks : List (List ℕ)) → Represents l ks → (l.count ≤ 64) × (l.count ≤ length ks)
count_lem l ks r = let c = r.count in (ground (arith, c), ground (arith, c))

-- the strings of a history
abbrev pub strings : List (ℕ × List ℕ) → List (List ℕ)
strings [] = []
strings (c ∷ cs) = c.1 ∷ strings cs

history_lem :
    (l : Logs) (ks : List (List ℕ)) (n i : ℕ)
    → Represents l ks
    → i + n ≡ l.count
    → strings (history_from l i n) ≡ drop (length ks - l.count + i) ks
unfolding history_from
history_lem l ks zero i r e =
    let c = count_lem l ks r in sym (drop_past ks (length ks - l.count + i) (omega (arith, c)))
history_lem l ks (suc n) i r e =
    let c = count_lem l ks r in
    let p = length ks - l.count + i in
    let before : p < length ks = omega (arith, c) in
    let place : ((l.next + max_lines - l.count) % max_lines + i) % max_lines ≡ p % 64 =
      omega (arith, c, r.next) in
    let next : length ks - l.count + (i + 1) ≡ p + 1 = omega arith in
    ap₂ (λ (x : List ℕ) (xs : List (List ℕ)). x ∷ xs)
      (ap (λ (j : ℕ). get_or l.lines j []) place ∙ r.at p before (omega (arith, c)))
      (history_lem l ks n (i + 1) r (omega arith) ∙ ap (λ (j : ℕ). drop j ks) next)
    ∙ sym (drop-get_or ks p before)

history_from-log_all :
    (ms : List (List ℕ))
    → let l = log_all ms no_logs in
      strings (history_from l 0 l.count) ≡ drop (length ms - 64) (map kept ms)
history_from-log_all ms =
    let l = log_all ms no_logs in
    let r = log_all-Represents ms no_logs [] no_logs-Represents in
    let c = r.count in
    let long = length-map ms kept in
    let first : length (map kept ms) - l.count + 0 ≡ length ms - 64 = ground (arith, c, long) in
    history_lem l (map kept ms) l.count 0 r (omega arith)
    ∙ ap (λ (j : ℕ). drop j (map kept ms)) first

-- Lines of text below one another, 18 rows apart, in white on black.
abbrev pub draw_lines : Font → ℕ → List (List ℕ) → Screen → Screen
draw_lines font y [] s = s
draw_lines font y (str ∷ strs) s = draw_lines font (y + 18) strs (text_with_pos 8 y 15 0 font str s)

draw_history_lem :
    (font : Font) (l : Logs) (n i y : ℕ) (s : Screen)
    → y ≡ 40 + i * 18
    → draw_history font (history_from l i n) s ≡ draw_lines font y (strings (history_from l i n)) s
unfolding draw_history history_from
draw_history_lem font l zero i y s e = refl
draw_history_lem font l (suc n) i y s e =
    let str = get_or l.lines (((l.next + max_lines - l.count) % max_lines + i) % max_lines) [] in
    ap (λ (r : ℕ). draw_history font (history_from l (i + 1) n) (text_with_pos 8 r 15 0 font str s))
      (sym e)
    ∙ draw_history_lem font l n (i + 1) (y + 18) (text_with_pos 8 y 15 0 font str s)
        (omega (arith, e))

-- After any calls of `text`, `console_render_history` passes the last 64 messages, or all if there are
-- not so many, to `text_with_pos`, the oldest first, each cut to 159 characters, from row 40 on and
-- 18 rows apart.
pub console_render_history-log_all :
    (font : Font) (ms : List (List ℕ)) (s : Screen)
    → console_render_history font (log_all ms no_logs) s
      ≡ draw_lines font 40 (drop (length ms - 64) (map kept ms)) s
unfolding console_render_history
console_render_history-log_all font ms s =
    let l = log_all ms no_logs in
    draw_history_lem font l l.count 0 40 s (omega arith)
    ∙ ap (λ (strs : List (List ℕ)). draw_lines font 40 strs s) (history_from-log_all ms)
