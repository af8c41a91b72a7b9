-- ===== src/Routes/Sales.antt =====
-- app/api: pipelines with their stages, and tags with their assignments.
use enterprise_crm.Common.{String, ◌<>◌, [], ◌∷◌}
use enterprise_crm.Common.Text.{encode_uri_component}
use enterprise_crm.Http.{Method}
use enterprise_crm.Routes.Handlers.{RouteModule, forwards, get_post, get_patch_delete}

abbrev pub pipelines : RouteModule
pipelines = forwards get_post "/pipelines"

abbrev pub pipeline_path : String → String
pipeline_path pipeline_id = "/pipelines/" <> encode_uri_component pipeline_id

abbrev pub pipeline : String → RouteModule
pipeline pipeline_id = forwards get_patch_delete (pipeline_path pipeline_id)

abbrev pub stages_path : String → String
stages_path pipeline_id = "/pipelines/" <> encode_uri_component pipeline_id <> "/stages"

abbrev pub stages : String → RouteModule
stages pipeline_id = forwards get_post (stages_path pipeline_id)

abbrev pub stage_path : String → String → String
stage_path pipeline_id stage_id =
    "/pipelines/" <> encode_uri_component pipeline_id <> "/stages/" <> encode_uri_component stage_id

abbrev pub stage : String → String → RouteModule
stage pipeline_id stage_id = forwards get_patch_delete (stage_path pipeline_id stage_id)

abbrev pub tags : RouteModule
tags = forwards get_post "/tags"

abbrev pub tag_path : String → String
tag_path tag_id = "/tags/" <> encode_uri_component tag_id

abbrev pub tag : String → RouteModule
tag tag_id = forwards get_patch_delete (tag_path tag_id)

-- The parameters are inserted as they are.
abbrev pub assignment_path : String → String → String → String
assignment_path tag_id entity_type entity_id =
    "/tags/" <> tag_id <> "/assignments/" <> entity_type <> "/" <> entity_id

abbrev pub assignment : String → String → String → RouteModule
assignment tag_id entity_type entity_id =
    forwards (Method.put ∷ Method.delete ∷ []) (assignment_path tag_id entity_type entity_id)
