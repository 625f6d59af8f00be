-- ===== src/Tests/Cloud.antt =====
-- A push event of a washer.
use local_smarthinq.Prelude.{◌≡◌, refl, String, Bool, false, none, some, [], ◌∷◌, put}
use local_smarthinq.App.Text.{ends_with}
use local_smarthinq.Json.{num, str, obj, Fields, end, field, get}
use local_smarthinq.Mqtt.View.{Countdown, view_of}
use local_smarthinq.Cloud.Events.{CloudDevice, Event, dispatch}
use local_smarthinq.Cloud.Events.About.{IsAbout, dispatch-IsAbout}
use local_smarthinq.Cloud.View.{Words, Names, cloud_view}

abbrev washer : CloudDevice
washer = record { device_id = "w1"; alias = some "Lavatrice"; model_name = some "WTWN3" }

abbrev push : Fields
push = field "push" (obj (field "deviceId" (str "w1") end)) end

abbrev event : Event
event = record { alias = "Lavatrice"; model_name = "WTWN3"; device_id = "w1"; payload = push }

abbrev nowhere : String → String → Bool
nowhere a b = false

push_event : dispatch nowhere (washer ∷ []) "app/clients/1/push" (obj push) ≡ some event
unfolding dispatch get
push_event = refl

dispatch-IsAbout_example :
    (fs : Fields) × (obj push ≡ obj fs)
    × IsAbout nowhere (washer ∷ []) "app/clients/1/push" fs event
dispatch-IsAbout_example =
    dispatch-IsAbout nowhere (washer ∷ []) "app/clients/1/push" (obj push) event push_event

abbrev words : Words
words = record { upper = λ s. s; replace = λ a b s. s; show = λ v. "1" }

abbrev names : Names
names = record { alias = "Lavatrice"; model_name = "WTWN3"; dev_id = "w1"; ts = "t"; key = "w1" }

abbrev countdown : Countdown
countdown h m = none

-- The state, and the hours that are left.
push_published :
    view_of countdown [] (cloud_view words names push "RUNNING" (field "remainHour" (num 1) end))
    ≡ some (
        ("alias", str "Lavatrice")
        ∷ ("cloud_device_id", str "w1")
        ∷ ("State", str "WM_STATE_RUNNING")
        ∷ ("Remain_Time_H", str "1")
        ∷ ("Remain_Time_M", str "1")
        ∷ [])
unfolding view_of cloud_view put ends_with get
push_published = refl
