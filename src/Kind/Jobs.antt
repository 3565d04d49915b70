-- ===== src/Kind/Jobs.antt =====
-- The job that imports the database script, and the container that waits for the database.
use nacos_operator.Prelude.{String, some, List, [], ◌∷◌, ◌++◌, ◌+++◌}
use nacos_operator.GoMap.{RangeOrder}
use nacos_operator.Types.{
  Container, zero_container, zero_pod_spec, config_map_key_ref, Job, StatefulSet,
}
use nacos_operator.Api.{Nacos}
use nacos_operator.Kind.Names.{object_labels, object_meta}
use nacos_operator.Kind.Environment.{mysql_env}

abbrev shell : String → List String
shell script = "/bin/sh" ∷ "-c" ∷ script ∷ []

abbrev pub ping_script : String
ping_script =
    "while ! mysqladmin ping --host=\"${MYSQL_HOST}\" --port=\"${MYSQL_PORT}\" --user=\"${MYSQL_USER}\" --password=\"${MYSQL_PASS}\" ; do echo \"check mysql\"; sleep 1; done"

abbrev pub create_script : String
create_script =
    "until mysql -u\"${MYSQL_USER}\" -p\"${MYSQL_PASS}\" -h\"${MYSQL_HOST}\" -P\"${MYSQL_PORT}\" -e\"create database if not exists \"${MYSQL_DB}\"\"; do echo waiting for database creation...; sleep 2; done;"

abbrev pub import_script : String
import_script =
    "mysql -u\"${MYSQL_USER}\" -p\"${MYSQL_PASS}\" -h\"${MYSQL_HOST}\" -P\"${MYSQL_PORT}\" -D\"${MYSQL_DB}\" -e\"${SQL_SCRIPT}\";"

abbrev pub check_script : String
check_script =
    "while ! mysqlcheck --host=\"${MYSQL_HOST}\" --port=\"${MYSQL_PORT}\" --user=\"${MYSQL_USER}\" --password=\"${MYSQL_PASS}\" --databases \"${MYSQL_DB}\" ; do sleep 1; done"

abbrev database_container : Nacos → String → String → Container
database_container nacos name script = record zero_container {
  name = name;
  image = nacos.spec.mysql_init_image;
  env = mysql_env nacos.spec.database;
  command = shell script;
}

unfoldable pub build_job : RangeOrder → Nacos → Job
unfolding object_labels
build_job order nacos = record {
  meta = object_meta nacos (nacos.name +++ "-mysql-sql-init") (object_labels order nacos) [];
  template = record {
    labels = [];
    annotations = [];
    namespace = nacos.namespace;
    spec = record zero_pod_spec {
      init_containers =
          database_container nacos "mysql-ping-database" ping_script
          ∷ database_container nacos "mysql-create-database" create_script
          ∷ [];
      containers =
          record (database_container nacos "mysql-sql-init" import_script) {
            env =
                mysql_env nacos.spec.database
                ++ record {
                  name = "SQL_SCRIPT";
                  value = "";
                  value_from =
                      some (config_map_key_ref (nacos.name +++ "-mysql-sql-init") "SQL_SCRIPT");
                }
                  ∷ [];
          }
          ∷ [];
      restart_policy = "Never";
    };
  };
}

unfoldable pub add_check_database : Nacos → StatefulSet → StatefulSet
add_check_database nacos sts =
    let template = sts.spec.template in
    record sts {
      spec = record sts.spec {
        template = record template {
          spec = record template.spec {
            init_containers =
                template.spec.init_containers
                ++ database_container nacos "mysql-check-database" check_script ∷ [];
          };
        };
      };
    }
