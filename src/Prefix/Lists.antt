-- ===== src/Prefix/Lists.antt =====
-- src/decompressor/core/huffman.rs: the lists of a `Builder`, one of symbols for each code length.
pub mod Order
use mbrotli.Common.{
  ℕ, zero, suc, ◌+◌, ◌-◌, ◌%◌, ◌^◌, ◌==◌, if◌then◌else◌, List, [], ◌∷◌, get_or, set, replicate,
}

-- `NONE = u16::MAX`
abbrev pub none_link : ℕ
none_link = 65535

abbrev pub max_alphabet : ℕ
max_alphabet = 1128

-- The list of a length starts at `head`, goes on by `next` and ends at `tail`.
pub record Lists : Type 0 where
  pub next : List ℕ
  pub head : List ℕ
  pub tail : List ℕ
  pub counts : List ℕ
  pub total : ℕ
  pub last : ℕ

-- `clear`: the links of earlier codes stay.
unfoldable pub clear : Lists → Lists
clear l = record {
  next = l.next;
  head = replicate 16 none_link;
  tail = replicate 16 none_link;
  counts = replicate 16 0;
  total = 0;
  last = 0;
}

unfoldable pub push : ℕ → ℕ → Lists → Lists
push symbol length l =
    let previous = get_or l.tail length 0 in
    let linked = if previous == none_link then l.next else set l.next previous (symbol % 2 ^ 16) in
    record {
      next = set linked symbol none_link;
      head = if previous == none_link then set l.head length (symbol % 2 ^ 16) else l.head;
      tail = set l.tail length (symbol % 2 ^ 16);
      counts = set l.counts length (get_or l.counts length 0 + 1);
      total = l.total + 1;
      last = symbol;
    }

-- `for (index, link) in next[start..start + n]: *link = start + index + 1`
unfoldable pub link_run : ℕ → ℕ → List ℕ → List ℕ
link_run zero start next = next
link_run (suc n) start next = set (link_run n start next) (start + n) (suc (start + n) % 2 ^ 16)

unfoldable pub push_run : ℕ → ℕ → ℕ → Lists → Lists
unfolding link_run
push_run start end length l =
    let previous = get_or l.tail length 0 in
    let linked = set (link_run (end - 1 - start) start l.next) (end - 1) none_link in
    record {
      next = if previous == none_link then linked else set linked previous (start % 2 ^ 16);
      head = if previous == none_link then set l.head length (start % 2 ^ 16) else l.head;
      tail = set l.tail length ((end - 1) % 2 ^ 16);
      counts = set l.counts length (get_or l.counts length 0 + (end - start) % 2 ^ 16);
      total = l.total + (end - start);
      last = end - 1;
    }

-- `assign`: the lists of a list of lengths, where a length of zero has no code. The source
-- has it for its tests; here it says what the lists mean.
unfoldable pub assign_loop : ℕ → List ℕ → Lists → Lists
unfolding push
assign_loop symbol [] l = l
assign_loop symbol (x ∷ xs) l = assign_loop (suc symbol) xs (if x == 0 then l else push symbol x l)
