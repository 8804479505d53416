-- ===== src/Store/Runtimes/Shown.antt =====
-- internal/store/cloud.go: what the list shows of a runtime that has registered and sent a heartbeat.
use matrix_runtime.Common.{
  ℕ, ◌≡◌, refl, ap, ◌∙◌, Bool, true, false, not, ◌&&◌, List, [], ◌∷◌, ◌++◌, map, keep, count,
  Option, some, arith, any, if◌then◌else◌, Text, codes,
}
use matrix_runtime.Common.Int.{ℤ, is_positive}
use matrix_runtime.Common.Strings.{eq_text, eq_text_refl}
use matrix_runtime.Auth.Hex.{Bytes}
use matrix_runtime.Auth.Password.{fast_hash}
use matrix_runtime.Store.Tables.{Faults, ok, seconds}
use matrix_runtime.Common.Newest.{
  newest_first, count-newest_first, count-map, count-keep, find?-last, count-last,
}
use matrix_runtime.Store.Models.{or_text}
use matrix_runtime.Store.Runtimes.{
  Runtime, RuntimeRow, completed_runtime, register_runtime, is_stale, shown_runtime, list_runtimes,
  beaten, update_runtime, heartbeat_runtime,
}

-- What a list shows of the rows.
shown_count :
    (p : Runtime → Bool) (workspace_id : Text) (stale_after : ℤ) (now : ℕ) (rows : List RuntimeRow)
    → count p (
        map
          (λ (o : RuntimeRow). shown_runtime stale_after now o.runtime)
          (newest_first
            (λ (o : RuntimeRow). o.runtime.created_at)
            (keep (λ (o : RuntimeRow). eq_text o.runtime.workspace_id workspace_id) rows)))
      ≡ count
          (λ (o : RuntimeRow).
            p (shown_runtime stale_after now o.runtime)
            && eq_text o.runtime.workspace_id workspace_id)
          rows
shown_count p workspace_id stale_after now rows =
    count-map (λ (o : RuntimeRow). shown_runtime stale_after now o.runtime) p _
    ∙ count-newest_first (λ (o : RuntimeRow). o.runtime.created_at)
        (λ (o : RuntimeRow). p (shown_runtime stale_after now o.runtime)) _
    ∙ count-keep (λ (o : RuntimeRow). p (shown_runtime stale_after now o.runtime))
        (λ (o : RuntimeRow). eq_text o.runtime.workspace_id workspace_id) rows

shown_runtime-id :
    (stale_after : ℤ) (now : ℕ) (rt : Runtime) → (shown_runtime stale_after now rt).id ≡ rt.id
unfolding shown_runtime
shown_runtime-id stale_after now rt = ground arith

update_runtime-last :
    (id : Text) (f : Runtime → Runtime) (rows : List RuntimeRow) (o : RuntimeRow)
    → any (λ (r : RuntimeRow). eq_text r.runtime.id id) rows ≡ false
    → eq_text o.runtime.id id ≡ true
    → update_runtime id f (rows ++ o ∷ []) ≡ rows ++ (record o { runtime = f o.runtime }) ∷ []
update_runtime-last id f [] o h e = ground (arith, e)
update_runtime-last id f (r ∷ rows) o h e =
    ground (arith, h, update_runtime-last id f rows o (ground (arith, h)) e)

-- The status that the list shows of a runtime last seen at a time.
abbrev pub shown_status : ℤ → ℕ → ℕ → Text → Text
shown_status stale_after now seen status =
    if not (eq_text status (codes "offline"))
      && is_positive stale_after
      && is_stale stale_after now (some (seconds seen))
    then codes "offline"
    else status

shown_runtime-status :
    (stale_after : ℤ) (now t : ℕ) (status : Text) (caps : Option (List Text)) (rt : Runtime)
    → (shown_runtime stale_after now (beaten status caps t rt)).status
      ≡ shown_status stale_after now t (or_text (codes "online") status)
unfolding shown_runtime beaten
shown_runtime-status stale_after now t status caps rt = ground arith

-- The row of a new runtime.
abbrev new_row : (Bytes → Bytes) → Text → Text → ℕ → Runtime → RuntimeRow
new_row sha256 token id now rt = record {
  runtime = completed_runtime id now rt;
  token_hash = fast_hash sha256 token;
}

module _ (sha256 : Bytes → Bytes) (token id : Text) (now : ℕ) (rt : Runtime)
    (rows : List RuntimeRow) where
  register_runtime-ok :
      (fails : Faults) (q : Runtime) (token' : Text) (rows' : List RuntimeRow)
      → register_runtime sha256 fails (some token) id now rt rows ≡ (ok (q, token'), rows')
      → (any (λ (o : RuntimeRow). eq_text o.runtime.id id) rows ≡ false)
        × (rows' ≡ rows ++ new_row sha256 token id now rt ∷ [])
  unfolding register_runtime
  register_runtime-ok fails q token' rows' h = (ground (arith, h), ground (arith, h))

  beat-new :
      (fails : Faults) (status : Text) (caps : Option (List Text)) (t : ℕ)
      → fails 0 ≡ false
      → fails 1 ≡ false
      → any (λ (o : RuntimeRow). eq_text o.runtime.id id) rows ≡ false
      → any (λ (o : RuntimeRow). eq_text o.token_hash (fast_hash sha256 token)) rows ≡ false
      → heartbeat_runtime sha256 fails token status caps t
          (rows ++ new_row sha256 token id now rt ∷ [])
        ≡ (
          ok (beaten status caps t (completed_runtime id now rt)),
          rows
              ++ (record (new_row sha256 token id now rt) {
                runtime = beaten status caps t (completed_runtime id now rt);
              })
                ∷ [],
        )
  unfolding heartbeat_runtime completed_runtime
  beat-new fails status caps t up0 up1 new_id new_hash =
      let row = new_row sha256 token id now rt in
      ground (
        arith,
        up0,
        up1,
        find?-last (λ o. eq_text o.token_hash (fast_hash sha256 token)) rows row new_hash
            (eq_text_refl _),
        update_runtime-last id (beaten status caps t) rows row new_id (eq_text_refl id),
      )

  -- What the list shows of the row after a heartbeat.
  count-listed :
      (p : Runtime → Bool) (status : Text) (caps : Option (List Text)) (t now' : ℕ)
      (stale_after : ℤ)
      → any (λ (o : RuntimeRow). eq_text o.runtime.id id) rows ≡ false
      → ((v : Runtime) → eq_text v.id id ≡ false → p v ≡ false)
      → p (shown_runtime stale_after now' (beaten status caps t (completed_runtime id now rt)))
        ≡ true
      → count
          (λ (o : RuntimeRow).
            p (shown_runtime stale_after now' o.runtime)
            && eq_text o.runtime.workspace_id rt.workspace_id)
          (rows
            ++ (record (new_row sha256 token id now rt) {
              runtime = beaten status caps t (completed_runtime id now rt);
            })
              ∷ [])
        ≡ 1
  unfolding beaten completed_runtime
  count-listed p status caps t now' stale_after new_id only own =
      count-last
        (λ (o : RuntimeRow).
          p (shown_runtime stale_after now' o.runtime)
          && eq_text o.runtime.workspace_id rt.workspace_id)
        (λ (o : RuntimeRow). eq_text o.runtime.id id) rows _ new_id
        (λ o e. ground (
          arith,
          only (shown_runtime stale_after now' o.runtime)
              (ap (λ i. eq_text i id) (shown_runtime-id stale_after now' o.runtime) ∙ e),
        ))
        (ground (arith, own, eq_text_refl rt.workspace_id))

  -- A runtime that has registered while no other has the hash of its token is known by the token: its heartbeat
  -- succeeds, and after that the list of its workspace has it once, with the status of the heartbeat, or as
  -- offline when more than the staleness has passed since.
  pub heartbeat_is_shown :
      (fails fails' fails'' : Faults) (status : Text) (caps : Option (List Text)) (t now' : ℕ)
      (stale_after : ℤ) (q : Runtime) (rows' : List RuntimeRow)
      → register_runtime sha256 fails (some token) id now rt rows ≡ (ok (q, token), rows')
      → any (λ (o : RuntimeRow). eq_text o.token_hash (fast_hash sha256 token)) rows ≡ false
      → fails' 0 ≡ false
      → fails' 1 ≡ false
      → fails'' 0 ≡ false
      → (r : Runtime) × (beat_rows : List RuntimeRow) × (vs : List Runtime) × (heartbeat_runtime
            sha256 fails' token status caps t rows'
          ≡ (ok r, beat_rows))
        × (list_runtimes fails'' rt.workspace_id stale_after now' beat_rows ≡ ok vs)
        × (count (λ v. eq_text v.id id) vs ≡ 1)
        × (count
              (λ v.
                eq_text v.id id
                && eq_text v.status
                    (shown_status stale_after now' t (or_text (codes "online") status)))
              vs
            ≡ 1)
  unfolding list_runtimes
  heartbeat_is_shown fails fails' fails'' status caps t now' stale_after q rows' registered new_hash
        up0 up1 up2 =
      let (new_id, e) = register_runtime-ok fails q token rows' registered in
      let shown =
        shown_runtime stale_after now' (beaten status caps t (completed_runtime id now rt)) in
      let same_id : eq_text shown.id id ≡ true =
        ap (λ i. eq_text i id) (shown_runtime-id stale_after now' _)
        ∙ unfold beaten completed_runtime in eq_text_refl id in
      let expected = shown_status stale_after now' t (or_text (codes "online") status) in
      let same_status : eq_text shown.status expected ≡ true =
        ap (λ i. eq_text i expected) (shown_runtime-status stale_after now' t status caps _)
        ∙ eq_text_refl expected in
      (
        _,
        _,
        _,
        ap (heartbeat_runtime sha256 fails' token status caps t) e
            ∙ beat-new fails' status caps t up0 up1 new_id new_hash,
        rw up2 refl,
        shown_count (λ v. eq_text v.id id) rt.workspace_id stale_after now' _
            ∙ count-listed (λ v. eq_text v.id id) status caps t now' stale_after new_id (λ v n. n)
                same_id,
        shown_count (λ v. eq_text v.id id && eq_text v.status expected) rt.workspace_id stale_after
              now' _
            ∙ count-listed (λ v. eq_text v.id id && eq_text v.status expected) status caps t now'
                stale_after new_id (λ v n. ground (arith, n))
                (ground (arith, same_id, same_status)),
      )
