-- ===== src/Notify.antt =====
-- notify/notify.go and user/models: what users are told of jobs. The manager observes jobs and sends events over a
-- channel without a buffer to `Serve`, so a list of events is in the order in which they are taken. Time
-- stamps are left out.
pub mod Once
pub mod Publishing
pub mod Serving
use codemigrate.Prelude.{
  ℕ, zero, suc, ◌+◌, ◌-◌, String, List, [], ◌∷◌, ◌++◌, Option, none, some, Bool, true, false, ◌==◌,
  nat_eq, ltb, ◌&&◌, not, if◌then◌else◌,
}
use codemigrate.Prelude.Int.{ℤ, pos, negsuc}
use codemigrate.Cydex.{TransferType, upload, is_upload}
use codemigrate.Errors.{Result, ok, err}
use codemigrate.Models.{Pkg, Job}
use codemigrate.Models.Engine.{Engine, get_pkg}
use codemigrate.Nodes.{Outcome, returns, panics, and_then}
use codemigrate.Jobs.{JobEvent, on_job_create, on_job_start, on_job_finish}

-- `cydex.NotifyTo…`.
pub data NotifyType : Type 0 where
  to_receiver_new_pkg to_sender_pkg_upload_finish to_receiver_pkg_download_finish : NotifyType
  to_sender_pkg_download_start to_sender_pkg_download_finish : NotifyType

pub record JobInfo : Type 0 where
  pub job_id : String
  pub typ : TransferType
  pub pid : String
  pub uid : String

-- `cydex.User`.
pub record User : Type 0 where
  pub username : String
  pub email : String
  pub email_affairs : ℕ
  pub language : ℕ

-- The human size is made from the size.
pub record PkgInfo : Type 0 where
  pub pid : String
  pub title : String
  pub notes : String
  pub num_files : ℕ
  pub size : ℕ
  pub encryption_type : ℕ
  pub mtu_size : Option ℕ

pub record PkgEvent : Type 0 where
  pub notify_type : NotifyType
  pub job : JobInfo
  pub pkg : Option PkgInfo
  pub user : Option User
  pub owner : Option User

pub record NotifyManage : Type 0 where
  pub enable : Bool
  pub max_ev_processer : ℕ
  pub max_try_times : ℕ

-- What has become of an event that was taken.
pub data Fate : Type 0 where
  published : PkgEvent → Fate
  given_up dropped : Fate

-- A number that is not positive stands for the default.
abbrev pub or_default : ℕ → ℤ → ℕ
or_default d (pos zero) = d
or_default d (pos (suc n)) = suc n
or_default d (negsuc n) = d

unfoldable pub new_notify_manage : ℤ → ℤ → NotifyManage
new_notify_manage processers times = record {
  enable = false;
  max_ev_processer = or_default 50 processers;
  max_try_times = or_default 3 times;
}

abbrev pub set_enable : Bool → NotifyManage → NotifyManage
set_enable v m = record m { enable = v }

abbrev pub pkg_event : NotifyType → Job → PkgEvent
pkg_event t j = record {
  notify_type = t;
  job = record { job_id = j.job_id; typ = j.typ; pid = j.pid; uid = j.uid };
  pkg = none;
  user = none;
  owner = none;
}

-- Of the end of a download both the receiver and the sender are told.
abbrev pub finish_events : Job → List PkgEvent
finish_events j =
    if is_upload j.typ
    then pkg_event to_sender_pkg_upload_finish j ∷ []
    else pkg_event to_receiver_pkg_download_finish j
      ∷ pkg_event to_sender_pkg_download_finish j
      ∷ []

-- The events that `OnJobCreate`, `OnJobStart` and `OnJobFinish` send.
unfoldable pub observe : NotifyManage → JobEvent → List PkgEvent
observe m (on_job_create j) =
    if not m.enable
    then []
    else if is_upload j.typ
    then []
    else pkg_event to_receiver_new_pkg j ∷ []
observe m (on_job_start j) =
    if not m.enable
    then []
    else if is_upload j.typ
    then []
    else pkg_event to_sender_pkg_download_start j ∷ []
observe m (on_job_finish j) =
    if not m.enable then [] else if ltb 1 j.finished_times then [] else finish_events j

unfoldable pub observe_all : NotifyManage → List JobEvent → List PkgEvent
unfolding observe
observe_all m [] = []
observe_all m (e ∷ es) = observe m e ++ observe_all m es

pub record AuthUser : Type 0 where
  pub username : String
  pub email : String

pub record UserProfile : Type 0 where
  pub user_id : ℕ
  pub user : Option AuthUser
  pub language : ℕ
  pub email_affairs : ℕ

-- The queries of the engine for users.
pub record UserEngine : Type 1 where
  pub Db : Type 0
  pub find_profile : Db → String → Result (Option UserProfile)
  pub find_user : Db → ℕ → Result (Option AuthUser)

unfoldable pub get_user_profile : (y : UserEngine) → y.Db → String → Result (Option UserProfile)
get_user_profile y db uid = elim (y.find_profile db uid) [
  | err e ↦ err e
  | ok none ↦ ok none
  | ok (some p) ↦ elim (y.find_user db p.user_id) [
    | err e ↦ err e
    | ok u ↦ ok (some (record p { user = u }))
  ]
]

-- What `fetchJobInfo` makes of a user's profile. A missing profile or user is a nil pointer, read all the same.
unfoldable pub user_of : Result (Option UserProfile) → Outcome (Result User)
user_of (err e) = returns (err e)
user_of (ok none) = panics
user_of (ok (some p)) = elim p.user [
  | none ↦ panics
  | some u ↦ returns (
      ok (record {
        username = u.username;
        email = u.email;
        email_affairs = p.email_affairs;
        language = p.language;
      }))
]

abbrev pkg_info : Pkg → PkgInfo
pkg_info p = record {
  pid = p.pid;
  title = p.title;
  notes = p.notes;
  num_files = p.num_files;
  size = p.size;
  encryption_type = p.encryption_type;
  mtu_size = p.mtu_size;
}

-- Whether `publishPkgEvent` reaches one of the tries of PUBLISH that are allowed, and how many it makes.
unfoldable pub try_publish : ℕ → List Bool → ℕ × Bool
try_publish zero answers = (0, false)
try_publish (suc n) [] = (0, false)
try_publish (suc n) (answer ∷ answers) =
    let rest = try_publish n answers in if answer then (1, true) else (1 + rest.0, rest.1)

module _ (x : Engine) (y : UserEngine) where
  -- The owner of a package with one upload job; of any other the event has none, and no error is told.
  unfoldable pub owner_among : y.Db → PkgEvent → Result (List Job) → Outcome (Result PkgEvent)
  unfolding get_user_profile user_of
  owner_among users ev (err e) = returns (err e)
  owner_among users ev (ok []) = returns (ok ev)
  owner_among users ev (ok (j ∷ [])) =
      and_then (user_of (get_user_profile y users j.uid))
        (λ r. returns (elim r [ err e ↦ err e | ok u ↦ ok (record ev { owner = some u }) ]))
  owner_among users ev (ok (j ∷ k ∷ js)) = returns (ok ev)

  unfoldable pub owner_of : x.Db → y.Db → PkgEvent → Outcome (Result PkgEvent)
  unfolding owner_among
  owner_of db users ev =
      if is_upload ev.job.typ
      then returns (ok (record ev { owner = ev.user }))
      else owner_among users ev (x.find_jobs_by_pid db ev.job.pid upload)

  -- `fetchJobInfo`: a missing package is a nil pointer as well.
  unfoldable pub fetch_job_info : x.Db → y.Db → PkgEvent → Outcome (Result PkgEvent)
  unfolding owner_of
  fetch_job_info db users ev = elim (get_pkg x db ev.job.pid) [
    | err e ↦ returns (err e)
    | ok found ↦ elim found [
      | none ↦ panics
      | some p ↦ and_then (user_of (get_user_profile y users ev.job.uid)) (λ r. elim r [
        | err e ↦ returns (err e)
        | ok u ↦ owner_of db users (record ev { pkg = some (pkg_info p); user = some u })
      ])
    ]
  ]

  -- `publishPkgEvent`: the event is published, completed, or given up, if the job cannot be looked up or no
  -- try is answered.
  unfoldable pub publish_pkg_event :
      NotifyManage → x.Db → y.Db → List Bool → PkgEvent → Outcome Fate
  unfolding fetch_job_info try_publish
  publish_pkg_event m db users answers ev = and_then (fetch_job_info db users ev) (λ r. elim r [
    | err e ↦ returns given_up
    | ok ev' ↦ returns (if (try_publish m.max_try_times answers).1 then published ev' else given_up)
  ])
