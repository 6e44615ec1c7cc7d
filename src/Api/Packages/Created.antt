-- ===== src/Api/Packages/Created.antt =====
-- api/controllers/pkg.go: how the creation of a package ends.
use codemigrate.Prelude.{ℕ, String, ◌≡◌, Bool, false, ◌==◌, not, nat_eq, string_eq, by_if}
use codemigrate.Errors.{Error, ok, err, by_result}
use codemigrate.Nodes.{Outcome, returns}
use codemigrate.Jobs.{JobManager}
use codemigrate.Unpacker.{DefaultUnpacker, generate_pid}
use codemigrate.Unpacker.Segments.{IsConfigured}
use codemigrate.Api.{Code, invalid_param, inner_server, ApiEngine}
use codemigrate.Api.Packages.Storing.{
  CreatePkgReq, CreatePkgRsp, rejection, Storing, stored, failed, stuck_panic, stuck_endless,
  new_pkg,
}
use codemigrate.Api.Packages.Creation.{
  begin_session, give_up, commit_session, dispatch_jobs, end_storing, create_pkg,
}
use codemigrate.Api.Packages.Stored.{Ends, PkgStored, Inserted, store_pkg-PkgStored}

module _ (x : ApiEngine) where
  open x use {base, insert_pkg, close}

  -- How the creation of a package ends: it is refused and nothing has changed; or its rows, those of its
  -- files and of their segments are inserted in one transaction, and jobs are created after the commit; or
  -- the commit fails, and jobs are created over a database without the package.
  pub data CreateCase (u : DefaultUnpacker) (now : ℕ) (uid : String) (req : CreatePkgReq)
      (jm : JobManager base.Db) : Outcome (JobManager base.Db × CreatePkgRsp) → Type 0 where
    refused : (code : Code) → CreateCase u now uid req jm (returns (jm, rejection code))
    created :
        (s s1 s2 db : base.Db)
        → base.begin jm.db ≡ ok s
        → insert_pkg s (new_pkg (generate_pid u now uid) req) ≡ ok s1
        → Inserted x u (generate_pid u now uid) 0 req.files s1 s2
        → base.commit s2 ≡ ok db
        → CreateCase u now uid req jm (
            dispatch_jobs x now uid req
              (new_pkg (generate_pid u now uid) req)
              (record jm { db = db }))
    lost :
        (s2 : base.Db) (e : Error)
        → base.commit s2 ≡ err e
        → CreateCase u now uid req jm
            (dispatch_jobs x now uid req (new_pkg (generate_pid u now uid) req) jm)

  end_storing-CreateCase :
      (u : DefaultUnpacker) (now : ℕ) (uid : String) (req : CreatePkgReq) (jm : JobManager base.Db)
      (s : base.Db) (r : Storing base.Db)
      → base.begin jm.db ≡ ok s
      → ((before inner : base.Db) → close before inner ≡ before)
      → Ends (PkgStored x u (new_pkg (generate_pid u now uid) req) req.files s) r
      → CreateCase u now uid req jm (
          end_storing x now uid req
            (new_pkg (generate_pid u now uid) req)
            jm
            (record { outside = jm.db; inside = s; auto = false })
            r)
  unfolding end_storing give_up commit_session
  end_storing-CreateCase u now uid req jm s (stored s2) b cl (s1, e, h) =
      let p = new_pkg (generate_pid u now uid) req in
      by_result
        (λ db. CreateCase u now uid req jm (dispatch_jobs x now uid req p (record jm { db = db })))
        (base.commit s2) (λ e'. lost s2 e') (λ db k. created s s1 s2 db b e h k)
  end_storing-CreateCase u now uid req jm s (failed seen inside) b cl h =
      by_if
        (λ db.
          CreateCase u now uid req jm (returns (record jm { db = db }, rejection inner_server)))
        seen (λ _. refused inner_server) (λ _. rw (cl jm.db inside) (refused inner_server))
  end_storing-CreateCase u now uid req jm s stuck_panic b cl h = absurd h
  end_storing-CreateCase u now uid req jm s stuck_endless b cl h = absurd h

  -- Of a configured unpacker, when a transaction can begin and to close a session drops what was not
  -- committed, the creation of a package is refused and changes nothing, or it stores the package with all
  -- its files, each cut into segments that add up to it, in one transaction and then creates the jobs, or
  -- the commit fails and the jobs are created all the same.
  pub create_pkg-CreateCase :
      (verify : CreatePkgReq → Bool) (u : DefaultUnpacker) (flag now : ℕ) (uid : String)
      (req : CreatePkgReq) (jm : JobManager base.Db) (s : base.Db)
      → IsConfigured u
      → base.begin jm.db ≡ ok s
      → ((before inner : base.Db) → close before inner ≡ before)
      → CreateCase u now uid req jm (create_pkg x verify u flag now uid req jm)
  unfolding create_pkg begin_session
  create_pkg-CreateCase verify u flag now uid req jm s c b cl =
      by_if (CreateCase u now uid req jm) (not (verify req)) (λ _. refused invalid_param)
        (λ _.
          by_if (CreateCase u now uid req jm) (uid == "") (λ _. refused invalid_param)
            (λ _.
              rw (b, begin_session)
                (end_storing-CreateCase u now uid req jm s _ b cl (
                  store_pkg-PkgStored x u flag (new_pkg (generate_pid u now uid) req) req.files s
                    c))))
