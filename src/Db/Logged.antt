-- ===== src/Db/Logged.antt =====
-- nteedb-core/db.go: a log and the indexes that its replay gives.
use ntee_db.Base.{
  ℕ, ◌+◌, ◌≡◌, refl, ap, sym, ◌∙◌, some, List, [], ◌∷◌, ◌++◌, length, take, take_append,
}
use mathlib.Core.Path.{subst}
use ntee_db.Bytes.{Bytes}
use ntee_db.Btree.{All}
use ntee_db.Btree.Items.{All-append}
use ntee_db.Record.{Record, IsLine, marshal_record, unmarshal_record, newline}
use ntee_db.MainLog.{MainLog, Visit, go, stop, scan_main_log, scan_lines, complete_lines}
use ntee_db.MainLog.Lines.{
  image, image-append, Fits, Scanned, scanned, scans, Scanned-append, scan_lines-Scanned,
  complete_lines-image,
}
use ntee_db.MainLog.Appends.{IsSound, appended, appended-IsSound}
use ntee_db.Blob.{BlobStore, blob_size_of}
use ntee_db.SecIndex.{IndexDef}
use ntee_db.Index.{Index, replay_record}
use ntee_db.Index.View.{IsTrees, SameIndex}
use ntee_db.Index.Replay.{SameVisit, SameVisit-replay_record}
use ntee_db.Db.{Env, Db}
use ntee_db.Db.Boot.{fresh, replay_tail}

module _ (env : Env) where
  -- The log is a file of whole lines, and replaying them from no record gives indexes that hold
  -- what these hold.
  pub record Logged (main : MainLog) (blobs : List (ℕ × BlobStore)) (index : Index env.trees)
      (defs : List IndexDef) : Type 0 where
    pub lines : List Bytes
    pub final : Index env.trees
    pub sound : IsSound main
    pub holds : main.f.content ≡ image lines
    pub whole : All IsLine lines
    pub replays :
        Scanned env.json
          (replay_record env.trees (blob_size_of blobs))
          0
          (fresh env.trees defs)
          lines
          main.size
          final
    pub same : SameIndex env.trees final index

  abbrev pub IsLogged : Db env → Type 0
  IsLogged db = Logged db.main db.blobs db.index db.index_defs

  -- A record that the log carries: one line, which decodes to it.
  pub record Carried (r : Record) (line : Bytes) : Type 0 where
    pub encodes : marshal_record env.json r ≡ some line
    pub one_line : IsLine line
    pub fits : Fits line
    pub decodes : unmarshal_record env.json line ≡ some r

  pub go_of_same :
      (v : Visit (Index env.trees)) {b : Index env.trees}
      → SameVisit env.trees v (go b)
      → (a : Index env.trees) × (v ≡ go a) × SameIndex env.trees a b
  go_of_same (go a) s = (a, refl, s)
  go_of_same stop s = absurd s

  module _ (law : IsTrees env.trees) where
    -- A record that is appended, and that replay applies as the store does, keeps the invariant.
    pub Logged-append :
        {main : MainLog} {blobs : List (ℕ × BlobStore)} {index : Index env.trees}
        {defs : List IndexDef} (r : Record) (line : Bytes) (index' : Index env.trees)
        → Carried r line
        → replay_record env.trees (blob_size_of blobs) index r main.size (length line + 1)
          ≡ go index'
        → Logged main blobs index defs
        → Logged (appended main line) blobs index' defs
    unfolding image
    Logged-append {main} {blobs} {index} {defs} r line index' c applied g =
        let (final', visits, same') =
          go_of_same
            (replay_record env.trees (blob_size_of blobs) g.final r main.size (length line + 1))
            (subst
              (SameVisit env.trees (
                replay_record env.trees (blob_size_of blobs) g.final r main.size (length line + 1)))
              applied
              (SameVisit-replay_record env.trees law (blob_size_of blobs) g.final index r main.size
                (length line + 1) g.same)) in
        record {
          lines = g.lines ++ line ∷ [];
          final = final';
          sound = appended-IsSound main line g.sound;
          holds =
              ap (λ b. b ++ (line ++ newline ∷ [])) g.holds
              ∙ sym (image-append g.lines (line ∷ []));
          whole = All-append IsLine g.lines (line ∷ []) g.whole (c.one_line, tt);
          replays = Scanned-append g.replays (scans r c.fits c.decodes visits scanned);
          same = same';
        }

    -- For a store whose log replays to its indexes, with a torn line of any bytes but a newline
    -- behind the log after a crash, replayTail from the start rebuilds indexes that hold the same
    -- entries as the store's, and truncates the file to exactly the log.
    pub replay_tail-Logged :
        {main : MainLog} {blobs : List (ℕ × BlobStore)} {index : Index env.trees}
        {defs : List IndexDef} (torn : Bytes)
        → IsLine torn
        → (g : Logged main blobs index defs)
        → (final : Index env.trees) × (replay_tail env
              (blob_size_of blobs)
              0
              (fresh env.trees defs)
              (main.f.content ++ torn)
            ≡ (final, main.f.content))
          × SameIndex env.trees final index
    unfolding replay_tail scan_main_log
    replay_tail-Logged {main} {blobs} {index} {defs} torn t g = (
      g.final,
      ap (λ (r : Index env.trees × ℕ). (r.0, take r.1 (main.f.content ++ torn)))
            (ap
                (scan_lines env.json (replay_record env.trees (blob_size_of blobs)) 0
                  (fresh env.trees defs))
                (ap (λ b. complete_lines [] (b ++ torn)) g.holds
                  ∙ complete_lines-image g.lines torn g.whole t)
              ∙ scan_lines-Scanned g.replays)
          ∙ ap (λ b. (g.final, b))
              (ap (λ n. take n (main.f.content ++ torn)) g.sound.size
                ∙ take_append main.f.content torn),
      g.same,
    )
