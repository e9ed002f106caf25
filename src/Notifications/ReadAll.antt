-- ===== src/Notifications/ReadAll.antt =====
-- What marking notifications as read does to what users see.
use fx_deal_manager.Prelude.{
  ℕ, zero, suc, ◌≤◌, String, ◌≡◌, ◌≢◌, refl, ◌∙◌, some, List, [], ◌∷◌, map, arith, same, All,
  All-append, if◌then◌else◌,
}
use fx_deal_manager.Domain.{UserClaims}
use fx_deal_manager.Listings.{newest_first, take}
use fx_deal_manager.Audit.{AuditRow}
use fx_deal_manager.Notifications.{
  UserNotificationState, to_notification, count_unread, last_read, clamp, list_notifications,
  read_all,
}

-- The moment that a user has read up to, after some user has marked all as read.
pub last_read-read_all :
    (now : ℕ) (user : UserClaims) (states : List UserNotificationState) (name : String)
    → last_read (read_all now user states) name
      ≡ (if same user.user_id name then some now else last_read states name)
unfolding read_all
last_read-read_all now user [] name = refl
last_read-read_all now user (row ∷ rows) name =
    ground (arith, last_read-read_all now user rows name)

abbrev pub IsPast : ℕ → AuditRow → Type 0
IsPast now row = row.created_at ≤ now

All-take : (P : AuditRow → Type 0) (n : ℕ) (rows : List AuditRow) → All P rows → All P (take n rows)
All-take P zero rows h = tt
All-take P (suc n) [] h = tt
All-take P (suc n) (row ∷ rows) h = (h.0, All-take P n rows h.1)

All-newest_first :
    (P : AuditRow → Type 0) (rows : List AuditRow) → All P rows → All P (newest_first rows)
All-newest_first P [] h = tt
All-newest_first P (row ∷ rows) h =
    All-append P (newest_first rows) (row ∷ []) (All-newest_first P rows h.1) (h.0, tt)

count_unread-past :
    (now : ℕ) (rows : List AuditRow)
    → All (IsPast now) rows
    → count_unread (map (to_notification (some now)) rows) ≡ 0
unfolding to_notification
count_unread-past now [] h = refl
count_unread-past now (row ∷ rows) h = ground (arith, h.0, count_unread-past now rows h.1)

-- Once a user has marked all as read, at a moment at which every entry of the log is there, that
-- user's list has nothing unread, whatever its page size, and every other user's list is what it was.
pub read_all-unread :
    (now : ℕ) (user : UserClaims) (states : List UserNotificationState) (log : List AuditRow)
    (other : UserClaims) (page_size : ℕ)
    → All (IsPast now) log
    → other.user_id ≢ user.user_id
    → ((list_notifications (read_all now user states) log user page_size).unread_count ≡ 0)
      × (list_notifications (read_all now user states) log other page_size
          ≡ list_notifications states log other page_size)
unfolding list_notifications
read_all-unread now user states log other page_size past differ =
    let mine : last_read (read_all now user states) user.user_id ≡ some now =
      last_read-read_all now user states user.user_id ∙ ground arith in
    let theirs : last_read (read_all now user states) other.user_id
        ≡ last_read states other.user_id =
      last_read-read_all now user states other.user_id ∙ ground arith in
    (
      rw mine (
          count_unread-past now _
            (All-take (IsPast now) (clamp page_size) _ (All-newest_first (IsPast now) log past))),
      rw theirs refl,
    )
