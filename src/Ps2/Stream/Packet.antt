-- ===== src/Ps2/Stream/Packet.antt =====
-- The assembly of packets in drivers/touchpad.c, as a state machine.
use entropy_os.Prelude.{
  ℕ, zero, suc, ◌+◌, ◌/◌, ◌%◌, ◌<◌, ◌≡◌, refl, ap, sym, subst, ◌∙◌, Bool, true, false, not, Option,
  none, some, List, [], ◌∷◌, length, ltb, ◌==◌, set, get_or, length-set, get_or-set_self,
  get_or-set_ne, ==_true, if◌then◌else◌, ◌+ℤ◌, arith,
}
use entropy_os.Ps2.Controller.{Controller, data_port, status_port}
use entropy_os.Ps2.Controller.Incoming.{IsQueue}
use entropy_os.Ps2.Keyboard.Direct.{bytes_of}
use entropy_os.Ps2.Touchpad.{Motion, Event, no_motion, add_packet, sign_extend}
use entropy_os.Ps2.Stream.{Assembly, take_byte, Stream, read_bytes, stream_report, stream_poll}

-- Where in a packet the stream is.
pub data Phase : Type 0 where
  idle : Phase
  after_one : ℕ → Phase
  after_two : ℕ → ℕ → Phase

-- A byte moves the phase on; one without bit 3 does not start a packet.
abbrev pub next_phase : ℕ → Phase × Motion → Phase × Motion
next_phase b (idle, m) = if b / 8 % 2 == 1 then (after_one b, m) else (idle, m)
next_phase b (after_one b0, m) = (after_two b0 b, m)
next_phase b (after_two b0 b1, m) = (idle, add_packet b0 b1 b m)

abbrev pub run : List ℕ → Phase × Motion → Phase × Motion
run [] pm = pm
run (b ∷ bs) pm = run bs (next_phase b pm)

abbrev Stored : Assembly → Phase → Type 0
Stored a Phase.idle = a.packet_idx ≡ 0
Stored a (Phase.after_one b0) = (a.packet_idx ≡ 1) × (get_or a.packet 0 0 ≡ b0) × (b0 / 8 % 2 ≡ 1)
Stored a (Phase.after_two b0 b1) =
    (a.packet_idx ≡ 2) × (get_or a.packet 0 0 ≡ b0) × (get_or a.packet 1 0 ≡ b1) × (b0 / 8 % 2 ≡ 1)

-- The array and the index hold what the phase says.
pub record Models (a : Assembly) (ph : Phase) : Type 0 where
  pub room : length a.packet ≡ 3
  pub holds : Stored a ph

abbrev Agree : Assembly × Motion → Phase × Motion → Type 0
Agree am pm = Models am.0 pm.0 × (am.1 ≡ pm.1)

-- what `take_byte` does past its first test
abbrev stored : ℕ → Assembly → Motion → Assembly × Motion
stored b a m =
    let packet = set a.packet a.packet_idx b in
    if ltb (a.packet_idx + 1) 3
    then (record { packet = packet; packet_idx = a.packet_idx + 1 }, m)
    else (
      record { packet = packet; packet_idx = 0 },
      record {
        any = true;
        dx = m.dx +ℤ sign_extend (get_or packet 0 0) 16 (get_or packet 1 0);
        dy = m.dy +ℤ sign_extend (get_or packet 0 0) 32 (get_or packet 2 0);
        buttons = get_or packet 0 0 % 8;
      },
    )

abbrev first_test : Bool → ℕ → Assembly → Motion → Assembly × Motion
first_test t b a m = if t then (a, m) else stored b a m

abbrev moves : ℕ → ℕ → ℕ → Motion → Motion
moves b0 b1 b2 m = record {
  any = true;
  dx = m.dx +ℤ sign_extend b0 16 b1;
  dy = m.dy +ℤ sign_extend b0 32 b2;
  buttons = b0 % 8;
}

add_packet-started :
    (b0 b1 b2 : ℕ) (m : Motion) → b0 / 8 % 2 ≡ 1 → add_packet b0 b1 b2 m ≡ moves b0 b1 b2 m
unfolding add_packet
add_packet-started b0 b1 b2 m h = ap (λ (t : Bool). if t then moves b0 b1 b2 m else m) (==_true h)

abbrev at_index : List ℕ → ℕ → Assembly
at_index p i = record { packet = p; packet_idx = i }

idle_split :
    (t : Bool) (b : ℕ) (p : List ℕ) (m : Motion)
    → length p ≡ 3
    → (b / 8 % 2 == 1) ≡ t
    → Agree
        (first_test (not t) b (at_index p 0) m)
        (if t then (Phase.after_one b, m) else (Phase.idle, m))
idle_split false b p m room e = (record { room = room; holds = refl }, refl)
idle_split true b p m room e = (
  record {
    room = length-set p 0 b ∙ room;
    holds = (refl, get_or-set_self p 0 b 0 (omega (arith, room)), ground (arith, e));
  },
  refl,
)

one_step :
    (b b0 : ℕ) (p : List ℕ) (m : Motion)
    → length p ≡ 3
    → get_or p 0 0 ≡ b0
    → b0 / 8 % 2 ≡ 1
    → Agree (stored b (at_index p 1) m) (Phase.after_two b0 b, m)
one_step b b0 p m room e start = (
  record {
    room = length-set p 1 b ∙ room;
    holds = (
      refl,
      get_or-set_ne p 1 0 b 0 (λ h. omega (arith, h)) ∙ e,
      get_or-set_self p 1 b 0 (omega (arith, room)),
      start,
    );
  },
  refl,
)

two_step :
    (b b0 b1 : ℕ) (p : List ℕ) (m : Motion)
    → length p ≡ 3
    → get_or p 0 0 ≡ b0
    → get_or p 1 0 ≡ b1
    → b0 / 8 % 2 ≡ 1
    → Agree (stored b (at_index p 2) m) (Phase.idle, add_packet b0 b1 b m)
two_step b b0 b1 p m room e0 e1 start =
    let q = set p 2 b in
    let f0 = get_or-set_ne p 2 0 b 0 (λ h. omega (arith, h)) ∙ e0 in
    let f1 = get_or-set_ne p 2 1 b 0 (λ h. omega (arith, h)) ∙ e1 in
    let f2 = get_or-set_self p 2 b 0 (omega (arith, room)) in
    (
      record { room = length-set p 2 b ∙ room; holds = refl },
      ap (λ (x : ℕ). moves x (get_or q 1 0) (get_or q 2 0) m) f0
          ∙ ap (λ (x : ℕ). moves b0 x (get_or q 2 0) m) f1
          ∙ ap (λ (x : ℕ). moves b0 b1 x m) f2
          ∙ sym (add_packet-started b0 b1 b m start),
    )

-- One byte of the code is one step of the machine.
take_byte-Agree :
    (b : ℕ) (a : Assembly) (m : Motion) (ph : Phase)
    → Models a ph
    → Agree (take_byte b (a, m)) (next_phase b (ph, m))
unfolding take_byte
take_byte-Agree b a m Phase.idle h =
    subst (λ (i : ℕ). Agree (take_byte b (at_index a.packet i, m)) (next_phase b (Phase.idle, m)))
      (sym h.holds) (idle_split (b / 8 % 2 == 1) b a.packet m h.room refl)
take_byte-Agree b a m (Phase.after_one b0) h =
    let (i, e, start) = h.holds in
    subst (λ (i : ℕ). Agree (take_byte b (at_index a.packet i, m)) (Phase.after_two b0 b, m))
      (sym i) (one_step b b0 a.packet m h.room e start)
take_byte-Agree b a m (Phase.after_two b0 b1) h =
    let (i, e0, e1, start) = h.holds in
    subst
      (λ (i : ℕ). Agree (take_byte b (at_index a.packet i, m)) (Phase.idle, add_packet b0 b1 b m))
      (sym i) (two_step b b0 b1 a.packet m h.room e0 e1 start)

module _ {c : Controller} (law : IsQueue c) where
  -- The outcome of the loop.
  pub record Assembled (pm : Phase × Motion) (out : Option (c.State × Assembly × Motion))
      : Type 0 where
    pub hw : c.State
    pub assembly : Assembly
    pub result : out ≡ some (hw, assembly, pm.1)
    pub pending : law.pending hw ≡ []
    pub models : Models assembly pm.0

  abbrev when :
      Bool
      → Option (c.State × Assembly × Motion)
      → Option (c.State × Assembly × Motion)
      → Option (c.State × Assembly × Motion)
  when b x y = elim b [ false ↦ x | true ↦ y ]

  read_bytes-Assembled :
      (n : ℕ) (hw : c.State) (ps : List (Bool × ℕ)) (a : Assembly) (m : Motion) (ph : Phase)
      → length ps < n
      → law.pending hw ≡ ps
      → Models a ph
      → Assembled (run (bytes_of ps) (ph, m)) (read_bytes c n hw (a, m))
  unfolding read_bytes
  read_bytes-Assembled zero hw ps a m ph fuel w h = absurd (omega arith)
  read_bytes-Assembled (suc n) hw [] a m ph fuel w h =
      let hw1 = (c.inb status_port hw).1 in
      let (b, hw2) = c.inb data_port hw1 in
      subst
        (λ (r : Bool).
          Assembled (ph, m) (when r (some (hw1, a, m)) (read_bytes c n hw2 (take_byte b (a, m)))))
        (sym (law.status_empty hw w))
        (record {
          hw = hw1;
          assembly = a;
          result = refl;
          pending = law.status_keeps hw ∙ w;
          models = h;
        })
  read_bytes-Assembled (suc n) hw ((aux, byte) ∷ ps) a m ph fuel w h =
      let hw1 = (c.inb status_port hw).1 in
      let r2 = c.inb data_port hw1 in
      let (ready, _) = law.status_ready hw aux byte ps w in
      let (same, w2) = law.data_takes hw1 aux byte ps (law.status_keeps hw ∙ w) in
      let pm = next_phase byte (ph, m) in
      let am = take_byte byte (a, m) in
      let (models, motion) = take_byte-Agree byte a m ph h in
      let goal = run (bytes_of ps) pm in
      let d = read_bytes-Assembled n r2.1 ps am.0 pm.1 pm.0 (omega arith) w2 models in
      let d1 =
        subst (λ (m' : Motion). Assembled goal (read_bytes c n r2.1 (am.0, m'))) (sym motion) d in
      let d2 =
        subst (λ (b : ℕ). Assembled goal (read_bytes c n r2.1 (take_byte b (a, m)))) (sym same)
          d1 in
      subst
        (λ (r : Bool).
          Assembled goal (when r (some (hw1, a, m)) (read_bytes c n r2.1 (take_byte r2.0 (a, m)))))
        (sym ready) d2

  abbrev finish : Stream c → Option (c.State × Assembly × Motion) → Option (Option Event × Stream c)
  finish s o = elim o [
    | none ↦ none
    | some (hw, a, m) ↦ some (stream_report c m (record s { hw = hw; assembly = a }))
  ]

  -- The outcome of a poll.
  pub record Streamed (s : Stream c) (pm : Phase × Motion) (out : Option (Option Event × Stream c))
      : Type 0 where
    pub hw : c.State
    pub assembly : Assembly
    pub result : out ≡ some (stream_report c pm.1 (record s { hw = hw; assembly = assembly }))
    pub pending : law.pending hw ≡ []
    pub models : Models assembly pm.0

  -- On a controller as documented, with more fuel than bytes wait, `touchpad_poll` of drivers/touchpad.c ends, and has run each of
  -- the bytes through the machine of three phases: it waits for a byte with bit 3 to start a packet,
  -- reports the packets that were completed, and keeps the phase for the next poll.
  pub stream_poll-Streamed :
      (n : ℕ) (s : Stream c) (ps : List (Bool × ℕ)) (ph : Phase)
      → length ps < n
      → law.pending s.hw ≡ ps
      → Models s.assembly ph
      → Streamed s (run (bytes_of ps) (ph, no_motion)) (stream_poll c n s)
  unfolding stream_poll
  stream_poll-Streamed n s ps ph fuel w h =
      let d = read_bytes-Assembled n s.hw ps s.assembly no_motion ph fuel w h in
      record {
        hw = d.hw;
        assembly = d.assembly;
        result = ap (finish s) d.result;
        pending = d.pending;
        models = d.models;
      }
