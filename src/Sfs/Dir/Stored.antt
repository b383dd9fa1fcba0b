-- ===== src/Sfs/Dir/Stored.antt =====
-- A directory on a device without errors, every slot in a direct block of its own inode.
use prog.Sfs.Io.{Device, Fs, Vnode}
use prog.Sfs.Balloc.Laws.{IsValid, Kept-disk}
use prog.Sfs.Bmap.Direct.{IsSound}
use prog.Sfs.Metaio.Laws.{Reliable, metaio_read_lem, metaio_write_lem}
use prog.Sfs.Metaio.Splice.{take-splice, splice-before, splice-after}
use prog.Sfs.Dir.{
  Direntry, type_dir, bytes_of, words_of, direntry_words, words_direntry, slot_pos, readdir,
  writedir,
}
use prog.Sfs.Dir.Search.{Lists}
use prog.Prelude.{
  splice, ℕ, zero, suc, ◌+◌, ◌*◌, ◌/◌, ◌%◌, ◌^◌, ◌<◌, ◌≤◌, ◌≡◌, ◌≢◌, ◌⊎◌, inl, inr, refl, sym, ap,
  subst, ◌∙◌, ◌==◌, List, [], ◌∷◌, some, ret, ok, arith, length, get_elem?, set, take, drop,
  lt_of_get_elem?, Bool-cases, get_elem?-set_self, get_elem?-set_ne, length-set,
}

abbrev pub Bytes : List ℕ → Type 0
Bytes [] = Unit {0}
Bytes (c ∷ s) = (c < 256) × Bytes s

bytes_of-words_of : (k : ℕ) (s : List ℕ) → length s ≡ 4 * k → Bytes s → bytes_of (words_of s) ≡ s
bytes_of-words_of k [] h small = refl
bytes_of-words_of k (a ∷ []) h small = absurd (omega (arith, h))
bytes_of-words_of k (a ∷ b ∷ []) h small = absurd (omega (arith, h))
bytes_of-words_of k (a ∷ b ∷ c ∷ []) h small = absurd (omega (arith, h))
bytes_of-words_of zero (a ∷ b ∷ c ∷ d ∷ s) h small = absurd (omega (arith, h))
bytes_of-words_of (suc k) (a ∷ b ∷ c ∷ d ∷ s) h (la, (lb, (lc, (ld, small)))) =
    let w = a * 2 ^ 24 + b * 2 ^ 16 + c * 2 ^ 8 + d in
    let ea : w / 2 ^ 24 % 256 ≡ a = omega arith in
    let eb : w / 2 ^ 16 % 256 ≡ b = omega arith in
    let ec : w / 2 ^ 8 % 256 ≡ c = omega arith in
    let ed : w % 256 ≡ d = omega arith in
    rw (ea, eb, ec, ed, bytes_of-words_of k s (omega (arith, h)) small) refl

length-words_of : (k : ℕ) (s : List ℕ) → length s ≡ 4 * k → length (words_of s) ≡ k
length-words_of zero [] h = refl
length-words_of (suc k) [] h = absurd (omega (arith, h))
length-words_of k (a ∷ []) h = absurd (omega (arith, h))
length-words_of k (a ∷ b ∷ []) h = absurd (omega (arith, h))
length-words_of k (a ∷ b ∷ c ∷ []) h = absurd (omega (arith, h))
length-words_of zero (a ∷ b ∷ c ∷ d ∷ s) h = absurd (omega (arith, h))
length-words_of (suc k) (a ∷ b ∷ c ∷ d ∷ s) h = ap suc (length-words_of k s (omega (arith, h)))

-- A name of 60 bytes.
pub record IsEntry (e : Direntry) : Type 0 where
  pub size : length e.name ≡ 60
  pub bytes : Bytes e.name

pub words_direntry_lem : (e : Direntry) → IsEntry e → words_direntry (direntry_words e) ≡ e
words_direntry_lem e h =
    ap (λ l. record { ino = e.ino; name = l })
      (bytes_of-words_of 15 e.name (omega (arith, h.size)) h.bytes)

pub length-direntry_words : (e : Direntry) → IsEntry e → length (direntry_words e) ≡ 16
length-direntry_words e h = ap suc (length-words_of 15 e.name (omega (arith, h.size)))

-- The blocks of the inode `sv` hold the entries `es`.
pub record Stored {S : Type 0} (content : S → ℕ → List ℕ) (fs : Fs S) (sv : Vnode)
    (es : List Direntry) : Type 0 where
  pub valid : IsValid fs
  pub sound : IsSound fs sv
  pub kind : sv.kind ≡ type_dir
  pub size : sv.size ≡ length es * 64
  pub small : length es ≤ 120
  pub entries : (i : ℕ) (e : Direntry) → get_elem? es i ≡ some e → IsEntry e
  pub mapped : (i : ℕ) → i < length es → (b : ℕ) × (get_elem? sv.direct (i / 8) ≡ some b) × (b ≢ 0)
  pub words :
      (i b : ℕ) (e : Direntry)
      → get_elem? es i ≡ some e
      → get_elem? sv.direct (i / 8) ≡ some b
      → take 16 (drop (16 * (i % 8)) (content fs.disk b)) ≡ direntry_words e
  pub distinct :
      (m n b : ℕ) → get_elem? sv.direct m ≡ some b → get_elem? sv.direct n ≡ some b → b ≢ 0 → m ≡ n

-- An entry after a write of slot `i`: the one written, or one that was there.
pub set_cases :
    (es : List Direntry) (i j : ℕ) (d e : Direntry)
    → i < length es
    → get_elem? (set es i d) j ≡ some e
    → ((i ≡ j) × (e ≡ d)) ⊎ ((i ≢ j) × (get_elem? es j ≡ some e))
set_cases es i j d e inside at = elim (Bool-cases (i == j)) [
  | inl same ↦
      let eq : i ≡ j = ground (arith, same) in
      let self = get_elem?-set_self es i d inside in
      let at' = subst (λ n. get_elem? (set es i d) n ≡ some e) (sym eq) at in inl (eq, cc)
  | inr apart ↦
      let ne : i ≢ j = ground (arith, apart) in inr (ne, sym (get_elem?-set_ne es d ne) ∙ at)
]

some_injective : (a b : ℕ) → some a ≡ some b → a ≡ b
some_injective a b h = cc

slot_block : (i : ℕ) → i < 120 → slot_pos i / 512 ≡ i / 8
slot_block i h = omega arith

slot_word : (i : ℕ) → i < 120 → slot_pos i % 512 / 4 ≡ 16 * (i % 8)
slot_word i h = omega arith

module _ {S : Type 0} {dev : Device S} {content : S → ℕ → List ℕ} (rel : Reliable dev content)
    (fs : Fs S) (sv : Vnode) (es : List Direntry) (st : Stored content fs sv es) where
  readdir_lem :
      (i : ℕ) (e : Direntry) → get_elem? es i ≡ some e → readdir dev fs sv i ≡ ret (ok e, fs, sv)
  unfolding readdir
  readdir_lem i e at =
      let inside = lt_of_get_elem? es i e at in
      let low : i < 120 = omega (arith, inside, st.small) in
      let (b, here, real) = st.mapped i inside in
      let place = slot_word i low in
      let run =
        metaio_read_lem rel fs sv b st.valid st.sound (slot_pos i) (omega (arith, slot_block i low))
          (subst (λ n. get_elem? sv.direct n ≡ some b) (sym (slot_block i low)) here) real 16
          (omega (arith, place)) in
      let words = ap (λ n. take 16 (drop n (content fs.disk b))) place ∙ st.words i b e at here in
      rw (run, words, words_direntry_lem e (st.entries i e at)) refl

  pub Stored-Lists : Lists dev fs sv es
  Stored-Lists = record {
    kind = st.kind;
    size = st.size;
    names = λ i e at. (st.entries i e at).size;
    reads = readdir_lem;
  }

  module _ (i : ℕ) (inside : i < length es) (d : Direntry) (good : IsEntry d) (b : ℕ)
      (here : get_elem? sv.direct (i / 8) ≡ some b) (real : b ≢ 0) (s' : S)
      (now : content s' b ≡ splice (16 * (i % 8)) (direntry_words d) (content fs.disk b))
      (others : (c : ℕ) → c ≢ b → content s' c ≡ content fs.disk c) where
    low_slot : i < 120
    low_slot = omega (arith, inside, st.small)

    room : 16 * (i % 8) + length (direntry_words d) ≤ length (content fs.disk b)
    room = omega (arith, length-direntry_words d good, rel.size b fs.disk)

    written : take 16 (drop (16 * (i % 8)) (content s' b)) ≡ direntry_words d
    written =
        ap (λ l. take 16 (drop (16 * (i % 8)) l)) now
        ∙ subst
            (λ n.
              take n
                (drop (16 * (i % 8)) (splice (16 * (i % 8)) (direntry_words d) (content fs.disk b)))
              ≡ direntry_words d)
            (length-direntry_words d good)
            (take-splice (16 * (i % 8)) (direntry_words d) (content fs.disk b)
              (omega (arith, room)))

    neighbour :
        (j : ℕ)
        → i ≢ j
        → j / 8 ≡ i / 8
        → take 16 (drop (16 * (j % 8)) (content s' b))
          ≡ take 16 (drop (16 * (j % 8)) (content fs.disk b))
    neighbour j apart same =
        let moved = ap (λ l. take 16 (drop (16 * (j % 8)) l)) now in
        let cases : (j % 8 < i % 8) ⊎ (i % 8 < j % 8) = omega arith in
        elim cases [
          | inl before ↦
              moved
              ∙ splice-before 16 (16 * (j % 8)) (16 * (i % 8)) (direntry_words d)
                  (content fs.disk b) (omega arith) (omega (arith, room))
          | inr after ↦
              moved
              ∙ ap (take 16) (
                  splice-after (16 * (j % 8)) (16 * (i % 8)) (direntry_words d) (content fs.disk b)
                    (omega (arith, length-direntry_words d good)))
        ]

    still :
        (j c : ℕ)
        → i ≢ j
        → get_elem? sv.direct (j / 8) ≡ some c
        → take 16 (drop (16 * (j % 8)) (content s' c))
          ≡ take 16 (drop (16 * (j % 8)) (content fs.disk c))
    still j c apart at = elim (Bool-cases (c == b)) [
      | inl same ↦
          let e : c ≡ b = ground (arith, same) in
          let at' = subst (λ n. get_elem? sv.direct (j / 8) ≡ some n) e at in
          subst
            (λ n.
              take 16 (drop (16 * (j % 8)) (content s' n))
              ≡ take 16 (drop (16 * (j % 8)) (content fs.disk n)))
            (sym e) (neighbour j apart (st.distinct (j / 8) (i / 8) b at' here real))
      | inr differ ↦ ap (λ l. take 16 (drop (16 * (j % 8)) l)) (others c (ground (arith, differ)))
    ]

    kept : Stored content (record fs { disk = s' }) sv (set es i d)
    kept = record {
      valid = (Kept-disk st.valid s').valid;
      sound = record { size = st.sound.size; owned = st.sound.owned };
      kind = st.kind;
      size = st.size ∙ ap (λ n. n * 64) (sym (length-set es i d));
      small = omega (arith, st.small, length-set es i d);
      entries = λ j e at. elim (set_cases es i j d e inside at) [
        | inl (same, new) ↦ subst IsEntry (sym new) good
        | inr (apart, old) ↦ st.entries j e old
      ];
      mapped = λ j h. st.mapped j (omega (arith, length-set es i d));
      words = λ j c e at block. elim (set_cases es i j d e inside at) [
        | inl (same, new) ↦
            let at_i = subst (λ n. get_elem? sv.direct (n / 8) ≡ some c) (sym same) block in
            let e_b : c ≡ b = some_injective c b (sym at_i ∙ here) in
            let first =
              subst (λ n. take 16 (drop (16 * (n % 8)) (content s' b)) ≡ direntry_words d) same
                written in
            ap (λ n. take 16 (drop (16 * (j % 8)) (content s' n))) e_b
            ∙ first
            ∙ ap direntry_words (sym new)
        | inr (apart, old) ↦ still j c apart block ∙ st.words j c e old block
      ];
      distinct = st.distinct;
    }

  -- The whole of sfs_writedir within the directory.
  pub writedir_lem :
      (i : ℕ) (d : Direntry)
      → i < length es
      → IsEntry d
      → (s' : S) × (writedir dev fs sv i d ≡ ret (0, record fs { disk = s' }, sv))
        × Stored content (record fs { disk = s' }) sv (set es i d)
  unfolding writedir
  writedir_lem i d inside good =
      let low : i < 120 = omega (arith, inside, st.small) in
      let (b, here, real) = st.mapped i inside in
      let place = slot_word i low in
      let size = length-direntry_words d good in
      let end : slot_pos i + 4 * length (direntry_words d) ≤ sv.size =
        omega (arith, size, st.size, inside, low) in
      let (s', run, now, others) =
        metaio_write_lem rel fs sv b st.valid st.sound (slot_pos i)
          (omega (arith, slot_block i low))
          (subst (λ n. get_elem? sv.direct n ≡ some b) (sym (slot_block i low)) here) real
          (direntry_words d) (omega (arith, place, size)) end in
      let now' = now ∙ ap (λ n. splice n (direntry_words d) (content fs.disk b)) place in
      (s', rw run refl, kept i inside d good b here real s' now' others)
