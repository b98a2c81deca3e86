-- ===== src/Sched/Parse.antt =====
-- Measurement::new_from_string, sched_new_from_txt and sched_new: the schedule as it is read. Texts are
-- ASCII. A schedule of the other format ends in a panic whatever it holds.
pub mod Laws
use flashflow_research.Prelude.{
  ℕ, zero, suc, ◌+◌, ◌^◌, Bool, true, false, not, ◌&&◌, ◌||◌, Option, none, some, List, [], ◌∷◌,
  ◌++◌, Result, ok, err, panicked, ◌>>=◌, ◌>>◌, guard, ltb, leb, ◌==◌, if◌then◌else◌, length,
  count_if, keep_if,
}
use flashflow_research.Prelude.Text.{
  Bytes, codes, bytes_eq, is_space, skip_space, split_on, is_empty, scan_digits, starts_with_digit,
}
use flashflow_research.Sched.{
  Host, Measurement, waiting, sched_next_internal, sched_num, check_and_insert_measurements,
}
use flashflow_research.Sched.Count.{contains}

-- `str::trim` at the end, and at both ends.
unfoldable pub trim_end : Bytes → Bytes
trim_end [] = []
trim_end (c ∷ s) = let rest = trim_end s in if is_space c && is_empty rest then [] else c ∷ rest

unfoldable pub trim : Bytes → Bytes
unfolding trim_end
trim s = trim_end (skip_space s)

-- `str::parse::<u32>`: an optional plus sign and digits.
unfoldable pub parse_digits : Bytes → Option ℕ
parse_digits s =
    let (n, rest) = scan_digits s 0 in
    if starts_with_digit s && is_empty rest && ltb n (2 ^ 32) then some n else none

unfoldable pub parse_u32 : Bytes → Option ℕ
unfolding parse_digits
parse_u32 [] = none
parse_u32 (c ∷ s) = if c == b'+' then parse_digits s else parse_digits (c ∷ s)

-- `parse().unwrap()`
unfoldable pub parse_or_panic : Bytes → Result ℕ
unfolding parse_u32
parse_or_panic s = elim (parse_u32 s) [ none ↦ err panicked | some n ↦ ok n ]

unfoldable pub parse_all : List Bytes → Result (List ℕ)
parse_all [] = ok []
parse_all (s ∷ ss) = do n ← parse_or_panic s; ns ← parse_all ss; ok (n ∷ ns)

abbrev pub split_commas : Bytes → List Bytes
split_commas = split_on (λ c. c == b',')

-- The local variables of the function.
pub record Fields : Type 0 where
  pub word_num : ℕ
  pub id : ℕ
  pub fp : Bytes
  pub dur : ℕ
  pub host_class : List Bytes
  pub host_bw : List ℕ
  pub host_conns : List ℕ
  pub depends : List ℕ

abbrev pub no_fields : Fields
no_fields = record {
  word_num = 0;
  id = 0;
  fp = [];
  dur = 0;
  host_class = [];
  host_bw = [];
  host_conns = [];
  depends = [];
}

-- The `match` on the number of a word.
unfoldable pub take_word : Fields → Bytes → Result Fields
take_word k sub =
    let next = record k { word_num = k.word_num + 1 } in
    if k.word_num == 0
    then (do n ← parse_or_panic sub; ok (record next { id = n }))
    else if k.word_num == 1
    then ok (record next { fp = sub })
    else if k.word_num == 2
    then (do n ← parse_or_panic sub; ok (record next { dur = n }))
    else if k.word_num == 3
    then ok (record next { host_class = split_commas sub })
    else if k.word_num == 4
    then (do ns ← parse_all (split_commas sub); ok (record next { host_bw = ns }))
    else if k.word_num == 5
    then (do ns ← parse_all (split_commas sub); ok (record next { host_conns = ns }))
    else if k.word_num == 6
    then (do
      ns ← parse_all (split_commas sub)
      ok (record next { depends = keep_if (λ i. ltb 0 i) ns }))
    else err panicked

unfoldable pub take_parts : Fields → List Bytes → Result Fields
take_parts k [] = ok k
take_parts k (s ∷ ss) =
    let sub = trim s in
    if is_empty sub then take_parts k ss else (do k' ← take_word k sub; take_parts k' ss)

-- The hosts, where the three lists have one length.
unfoldable pub zip_hosts : List Bytes → List ℕ → List ℕ → List Host
zip_hosts (c ∷ cs) (b ∷ bs) (n ∷ ns) = record { class = c; bw = b; conns = n } ∷ zip_hosts cs bs ns
zip_hosts _ _ _ = []

abbrev pub is_background : Host → Bool
is_background h = bytes_eq h.class (codes "bg")

-- A background host has one connection and 125000 bytes per second.
unfoldable pub hosts_allowed : List Host → Bool
hosts_allowed [] = true
hosts_allowed (h ∷ hs) =
    (not (is_background h) || ((h.conns == 1) && (h.bw == 125000))) && hosts_allowed hs

-- What follows the loop over the words.
unfoldable pub make_measurement : Fields → Result (Option Measurement)
make_measurement k = do
  guard (not (k.id == 0)) panicked
  guard (not (contains k.depends k.id)) panicked
  guard ((length k.host_class == length k.host_bw) && (length k.host_class == length k.host_conns))
      panicked
  let hosts = zip_hosts k.host_class k.host_bw k.host_conns
  guard (hosts_allowed hosts) panicked
  guard (leb (count_if is_background hosts) 1) panicked
  ok (
      some (record {
        id = k.id;
        fp = k.fp;
        dur = k.dur;
        state = waiting;
        hosts = hosts;
        depends = k.depends;
        finished_depends = [];
        failsafe_stop = 0;
      }))

abbrev pub is_comment : Bytes → Bool
is_comment [] = true
is_comment (c ∷ s) = c == b'#'

unfoldable pub new_from_string : Bytes → Result (Option Measurement)
new_from_string line =
    let s = trim line in
    if is_comment s
    then ok none
    else (do k ← take_parts no_fields (split_on (λ c. c == b' ') s); make_measurement k)

unfoldable pub read_measurements : List Bytes → Result (List Measurement)
read_measurements [] = ok []
read_measurements (line ∷ lines) = do
  m ← new_from_string line
  ms ← read_measurements lines
  elim m [ none ↦ ok ms | some m ↦ ok (m ∷ ms) ]

-- The file's lines, where it can be opened.
unfoldable pub sched_new_from_txt :
    (List Measurement → List Measurement)
    → Option (List Bytes)
    → List Measurement
    → Result (List Measurement)
sched_new_from_txt arrange none msms = err panicked
sched_new_from_txt arrange (some lines) msms = do
  measurements ← read_measurements lines
  check_and_insert_measurements arrange msms measurements

-- `str::ends_with`
abbrev pub ends_with : Bytes → Bytes → Bool
ends_with end [] = bytes_eq [] end
ends_with end (c ∷ s) = let rest = ends_with end s in if bytes_eq (c ∷ s) end then true else rest

-- The map and the number of its measurements. `read` gives the lines of the file of a name.
unfoldable pub sched_new :
    (List Measurement → List Measurement)
    → (Bytes → Option (List Bytes))
    → Bytes
    → List Measurement
    → Result (List Measurement × ℕ)
sched_new arrange read fname msms = do
  msms' ←
      if ends_with (codes ".txt") fname
      then sched_new_from_txt arrange (read fname) msms
      else err panicked
  (id, same) ← sched_next_internal false 0 msms'
  guard (not (id == 0)) panicked
  ok (same, sched_num same)
