-- ===== src/Alloc/Merge.antt =====
-- Coalescing: `merge_next` and `merge_prev` of a linked block against `join` of its span.
use binbows_dos.Common.{
  ℕ, ◌+◌, ◌^◌, ◌%◌, ◌≤◌, ◌<◌, ◌≡◌, ◌≢◌, refl, inl, inr, ◌⊎◌, List, [], ◌∷◌, arith, ◌==◌, Bool-cases,
  ◌∙◌, ne→==,
}
use binbows_dos.Memory.Words.{load32-store32, load32-store32_apart, store32-apart}
use binbows_dos.Alloc.{
  State, next_at, size_at, set_size, set_next, header_size, block_end, merge_next, merge_prev,
}
use binbows_dos.Alloc.Span.{Span, Spaced, join}
use binbows_dos.Alloc.Chain.{Chain, Seg-same, covers-Spaced}
use binbows_dos.Alloc.Take.{Chain-lt}

-- The block at `a` now stands for the first of the spans `ws`, and only its header was written.
pub record Merged (a : ℕ) (s : State) (ws : List Span) (s' : State) : Type 0 where
  pub chain : Chain s'.mem a ws
  pub frame : (q : ℕ) → (q < a) ⊎ (a + 8 ≤ q) → s'.mem q ≡ s.mem q
  pub head : s'.free_list_head ≡ s.free_list_head
  pub interrupts : s'.interrupts ≡ s.interrupts

module _ (hi a n b m : ℕ) (zs : List Span) (s : State) (pos : a ≢ 0) (small : hi ≤ 2 ^ 32)
    (sp : Spaced (a + header_size + n) hi ((b, m) ∷ zs)) (adjacent : a + header_size + n ≡ b)
    (chain : Chain s.mem a ((a, n) ∷ (b, m) ∷ zs)) where
  abbrev size_written : State
  size_written = set_size a (n + header_size + m) s

  abbrev next_written : State
  next_written = set_next a (next_at s b) size_written

  written_apart : (q : ℕ) → (q < a) ⊎ (a + 8 ≤ q) → next_written.mem q ≡ s.mem q
  written_apart q h =
      store32-apart (a + 4) q (next_at s b) size_written.mem (omega arith)
      ∙ store32-apart a q (n + header_size + m) s.mem (omega arith)

  joined-Merged : Merged a s ((a, n + header_size + m) ∷ zs) next_written
  joined-Merged =
      let next_small = Chain-lt s.mem (next_at s b) _ hi zs small sp.2 chain.3.3 in
      record {
        chain = (
          refl,
          pos,
          load32-store32_apart (a + 4) a (next_at s b) size_written.mem (inr (omega arith))
              ∙ load32-store32 a (n + header_size + m) s.mem (omega arith),
          rw (load32-store32 (a + 4) (next_at s b) size_written.mem next_small) (
              Seg-same s.mem next_written.mem (next_at s b) 0 zs
                (λ q c.
                  let r = covers-Spaced _ hi q zs sp.2 c in written_apart q (inr (omega arith)))
                chain.3.3),
        );
        frame = written_apart;
        head = refl;
        interrupts = refl;
      }

-- `merge_next` joins the block's span with the spans that follow.
pub merge_next-Merged :
    (hi a n : ℕ) (zs : List Span) (s : State)
    → a ≢ 0
    → hi ≤ 2 ^ 32
    → Spaced (a + header_size + n) hi zs
    → Chain s.mem a ((a, n) ∷ zs)
    → Merged a s (join (a, n) zs) (merge_next a s)
unfolding merge_next join block_end
merge_next-Merged hi a n [] s pos small sp chain =
    rw (chain.3) (record { chain = chain; frame = λ q h. refl; head = refl; interrupts = refl })
merge_next-Merged hi a n ((b, m) ∷ zs) s pos small sp chain =
    let wrap : (a + header_size + n) % 2 ^ 32 ≡ a + header_size + n = omega arith in
    rw (chain.3.0, ne→== b 0 chain.3.1, chain.2, wrap)
      (elim (Bool-cases (a + header_size + n == b)) [
        | inl e ↦
            let adjacent : a + header_size + n ≡ b = ground arith in
            let sum : (n + header_size + m) % 2 ^ 32 ≡ n + header_size + m = omega arith in
            let kept =
              load32-store32_apart a (a + 4) (n + header_size + m) s.mem (inl (omega arith))
              ∙ chain.3.0 in
            let kept' =
              load32-store32_apart a (b + 4) (n + header_size + m) s.mem (inl (omega arith)) in
            rw (e, chain.3.2, sum, kept, kept')
              (joined-Merged hi a n b m zs s pos small sp adjacent chain)
        | inr e ↦
            rw e (record { chain = chain; frame = λ q h. refl; head = refl; interrupts = refl })
      ])

-- At the block in front of `block`, coalescing backward is coalescing forward.
merge_prev-merge_next :
    (prev block : ℕ) (s : State)
    → prev ≢ 0
    → block ≢ 0
    → block < 2 ^ 32
    → next_at s prev ≡ block
    → merge_prev prev block s ≡ merge_next prev s
unfolding merge_prev merge_next
merge_prev-merge_next prev block s pos pos' small e =
    let kept =
      load32-store32_apart prev (prev + 4)
        ((size_at s prev + header_size + size_at s block) % 2 ^ 32) s.mem (inl (omega arith))
      ∙ e in
    rw (e, ne→== prev 0 pos, ne→== block 0 pos', kept) refl

pub merge_prev-Merged :
    (hi c k a n : ℕ) (zs : List Span) (s : State)
    → c ≢ 0
    → hi ≤ 2 ^ 32
    → Spaced (c + header_size + k) hi ((a, n) ∷ zs)
    → Chain s.mem c ((c, k) ∷ (a, n) ∷ zs)
    → Merged c s (join (c, k) ((a, n) ∷ zs)) (merge_prev c a s)
merge_prev-Merged hi c k a n zs s pos small sp chain =
    rw (merge_prev-merge_next c a s pos chain.3.1 (omega arith) chain.3.0)
      (merge_next-Merged hi c k ((a, n) ∷ zs) s pos small sp chain)
