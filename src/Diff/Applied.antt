-- ===== src/Diff/Applied.antt =====
-- src/tor/dir/diff.rs: what `apply` makes of a base and a diff.
use rust_tor_proxy.Prelude.{
  ℕ, ◌≡◌, inl, inr, refl, sym, ap, ◌∙◌, true, List, [], ◌∷◌, append-nil, length, take, take-length,
  subst, Text, text_eq, eq_ignore_ascii_case, Result-cases, ok, arith,
}
use rust_tor_proxy.Diff.{
  Command, run_commands, assembled, split_lines, join_lines, document_digest, signed_part_digest,
  parse_hash_line, check_result, apply_lines, apply_to, apply, version_line,
}
use rust_tor_proxy.Diff.Edits.{edit_all, Reads, assembled-eq}
use rust_tor_proxy.Diff.Loop.{run_commands-Reads}

module _ (digest : Text → List ℕ) where
  -- What an answer of `apply` stands for.
  pub record IsApplied (base diff result : Text) : Type 0 where
    pub header : Text
    pub hash_line : Text
    pub commands : List Text
    pub from : Text
    pub to : Text
    pub edits : List Command
    pub diff_is : (split_lines diff).0 ≡ header ∷ hash_line ∷ commands
    pub version : text_eq header version_line ≡ true
    pub digests : parse_hash_line hash_line ≡ ok (from, to)
    pub base_is : eq_ignore_ascii_case from (signed_part_digest digest base) ≡ true
    pub reads : Reads (length (split_lines base).0) (length (split_lines base).0) commands edits
    pub edited : result ≡ join_lines (edit_all edits (split_lines base).0) (split_lines base).1
    pub promised : eq_ignore_ascii_case to (document_digest digest result) ≡ true

  assembled-start : (lines : List Text) → assembled lines ([], length lines) ≡ lines
  assembled-start lines =
      assembled-eq lines [] (length lines)
      ∙ append-nil (take (length lines) lines)
      ∙ take-length lines

  apply_lines-ok :
      (to base result : Text) (commands : List Text)
      → apply_lines digest to (split_lines base) base commands ≡ ok result
      → (edits : List Command) × Reads
          (length (split_lines base).0)
          (length (split_lines base).0)
          commands
          edits
        × (result ≡ join_lines (edit_all edits (split_lines base).0) (split_lines base).1)
        × (eq_ignore_ascii_case to (document_digest digest result) ≡ true)
  apply_lines-ok to base result commands h =
      let lines = (split_lines base).0 in
      elim (Result-cases (run_commands (length commands) lines commands [] (length lines))) [
        | inl (x, e) ↦ absurd (ground arith)
        | inr ((kept, j), e) ↦
            let (cs, reads, same) =
              run_commands-Reads (length commands) lines commands [] kept (length lines) j
                (omega arith) (omega arith) e in
            let doc = join_lines (assembled lines (kept, j)) (split_lines base).1 in
            let checked : check_result digest to doc ≡ ok result = ground arith in
            let is_doc : doc ≡ result = unfold check_result in ground arith in
            (
              cs,
              reads,
              sym is_doc
                  ∙ ap (λ l. join_lines l (split_lines base).1)
                      (same ∙ ap (edit_all cs) (assembled-start lines)),
              subst (λ d. eq_ignore_ascii_case to (document_digest digest d) ≡ true) is_doc
                  (unfold check_result in ground arith),
            )
      ]

  -- Where `apply` answers with a document, the diff names the base that it was given, its lines read
  -- as commands that go up that base, and the document is what ed makes of the base by these
  -- commands, one after the other; its digest is the one that the diff promises.
  pub apply-IsApplied :
      (base diff result : Text) → apply digest base diff ≡ ok result → IsApplied base diff result
  apply-IsApplied base diff result h = of_lines (split_lines diff).0 refl (unfold apply in h)
    where
      with_hash :
          (header hash_line from to : Text) (commands : List Text)
          → (split_lines diff).0 ≡ header ∷ hash_line ∷ commands
          → parse_hash_line hash_line ≡ ok (from, to)
          → apply_to digest base (header ∷ hash_line ∷ commands) ≡ ok result
          → IsApplied base diff result
      with_hash header hash_line from to commands e p h =
          let lines : apply_lines digest to (split_lines base) base commands ≡ ok result =
            ground arith in
          let (edits, reads, edited, promised) = apply_lines-ok to base result commands lines in
          record {
            header = header;
            hash_line = hash_line;
            commands = commands;
            from = from;
            to = to;
            edits = edits;
            diff_is = e;
            version = ground arith;
            digests = p;
            base_is = ground arith;
            reads = reads;
            edited = edited;
            promised = promised;
          }

      of_lines :
          (ls : List Text)
          → (split_lines diff).0 ≡ ls
          → apply_to digest base ls ≡ ok result
          → IsApplied base diff result
      of_lines [] e h = absurd (ground arith)
      of_lines (header ∷ []) e h = absurd (ground arith)
      of_lines (header ∷ hash_line ∷ commands) e h =
          elim (Result-cases (parse_hash_line hash_line)) [
            | inl (x, bad) ↦ absurd (ground arith)
            | inr ((from, to), p) ↦ with_hash header hash_line from to commands e p h
          ]
