-- ===== src/Worker/Logs.antt =====
-- worker/logs.py and worker/metrics.py: one JSON object per line on the standard output.
use salesforce_erp_sync.Common.{ℕ, String, List, [], ◌∷◌, ◌++◌, map, Dict, pos}
use salesforce_erp_sync.Python.Json.{
  Json, int, text, array, object, nil, cons, Fields, end, field, items_of, update,
}
use salesforce_erp_sync.Exec.{Exec}
use salesforce_erp_sync.Aws.Client.{Aws}

abbrev pub namespace : String
namespace = "Relay"

-- {"Name": name, "Unit": "Count"}
abbrev pub metric : String × ℕ → Json
metric (name, n) = object (field "Name" (text name) (field "Unit" (text "Count") end))

abbrev pub count_field : String × ℕ → String × Json
count_field (name, n) = (name, int (pos n))

-- the record of `emit`
unfoldable pub metrics_record : ℕ → String → Dict ℕ → Fields
metrics_record timestamp service counts =
    update
      (field "_aws"
        (object (
          field "Timestamp" (int (pos timestamp)) (
            field "CloudWatchMetrics"
              (array (
                cons
                  (object (
                    field "Namespace" (text namespace) (
                      field "Dimensions" (array (cons (array (cons (text "Service") nil)) nil))
                        (field "Metrics" (array (items_of (map metric counts))) end))))
                  nil))
              end)))
        (field "Service" (text service) end))
      (map count_field counts)

-- the line of `log`
unfoldable pub log_line : String → String → String → String → Dict Json → Fields
log_line now service level msg fields =
    update
      (field "ts" (text now)
        (field "level" (text level) (field "service" (text service) (field "msg" (text msg) end))))
      fields

-- What a Lambda process holds: the world outside, the cache of queue URLs, the metric counts of the
-- running handler, and the lines printed so far.
pub record Process (aws : Aws) : Type 0 where
  pub world : aws.World
  pub queue_urls : Dict String
  pub counts : Dict ℕ
  pub printed : List Fields

module _ {aws : Aws} where
  -- an action on the world alone
  abbrev pub on_world : {A : Type 0} → Exec aws.World A → Exec (Process aws) A
  on_world m p = let (r, w) = m p.world in (r, record p { world = w })

  abbrev pub print : Fields → Process aws → Process aws
  print line p = record p { printed = p.printed ++ line ∷ [] }

  unfoldable pub log : String → String → String → Dict Json → Process aws → Process aws
  unfolding log_line
  log service level msg fields p =
      let (now, w) = aws.now_iso p.world in
      print (log_line now service level msg fields) (record p { world = w })

  -- `emit`: nothing is printed for no counts
  unfoldable pub emit_counts : String → Dict ℕ → Process aws → Process aws
  unfolding metrics_record
  emit_counts service [] p = p
  emit_counts service (c ∷ counts) p =
      let (now, w) = aws.time_ms p.world in
      print (metrics_record now service (c ∷ counts)) (record p { world = w })

  unfoldable pub emit : String → Process aws → Process aws
  unfolding emit_counts
  emit service p = emit_counts service p.counts p
