-- ===== src/Kind/DefaultConfig.antt =====
-- buildDefaultConfigMap, which nothing calls.
use nacos_operator.Prelude.{String, [], ◌∷◌, ◌+++◌}
use nacos_operator.GoMap.{RangeOrder}
use nacos_operator.Types.{ConfigMap}
use nacos_operator.Api.{Nacos}
use nacos_operator.Kind.Names.{object_labels, object_meta, generate_name}

-- The text of application.properties, line by line.
abbrev default_properties : String
default_properties =
    "# spring\n" +++ "\tserver.servlet.contextPath=${SERVER_SERVLET_CONTEXTPATH:/nacos}\n"
    +++ "\tserver.contextPath=/nacos\n" +++ "\tserver.port=${NACOS_APPLICATION_PORT:8848}\n"
    +++ "\tspring.datasource.platform=${SPRING_DATASOURCE_PLATFORM:\"\"}\n"
    +++ "\tnacos.cmdb.dumpTaskInterval=3600\n" +++ "\tnacos.cmdb.eventTaskInterval=10\n"
    +++ "\tnacos.cmdb.labelTaskInterval=300\n" +++ "\tnacos.cmdb.loadDataAtStart=false\n"
    +++ "\tdb.num=${MYSQL_DATABASE_NUM:1}\n"
    +++ "\tdb.url.0=jdbc:mysql://${MYSQL_SERVICE_HOST}:${MYSQL_SERVICE_PORT:3306}/${MYSQL_SERVICE_DB_NAME}?${MYSQL_SERVICE_DB_PARAM:characterEncoding=utf8&connectTimeout=1000&socketTimeout=3000&autoReconnect=true}\n"
    +++ "\tdb.url.1=jdbc:mysql://${MYSQL_SERVICE_HOST}:${MYSQL_SERVICE_PORT:3306}/${MYSQL_SERVICE_DB_NAME}?${MYSQL_SERVICE_DB_PARAM:characterEncoding=utf8&connectTimeout=1000&socketTimeout=3000&autoReconnect=true}\n"
    +++ "\tdb.user=${MYSQL_SERVICE_USER}\n" +++ "\tdb.password=${MYSQL_SERVICE_PASSWORD}\n"
    +++ "\t### The auth system to use, currently only 'nacos' is supported:\n"
    +++ "\tnacos.core.auth.system.type=${NACOS_AUTH_SYSTEM_TYPE:nacos}\n" +++ "\t\n" +++ "\t\n"
    +++ "\t### The token expiration in seconds:\n"
    +++ "\tnacos.core.auth.default.token.expire.seconds=${NACOS_AUTH_TOKEN_EXPIRE_SECONDS:18000}\n"
    +++ "\t\n" +++ "\t### The default token:\n"
    +++ "\tnacos.core.auth.default.token.secret.key=${NACOS_AUTH_TOKEN:SecretKey012345678901234567890123456789012345678901234567890123456789}\n"
    +++ "\t\n"
    +++ "\t### Turn on/off caching of auth information. By turning on this switch, the update of auth information would have a 15 seconds delay.\n"
    +++ "\tnacos.core.auth.caching.enabled=${NACOS_AUTH_CACHE_ENABLE:false}\n"
    +++ "\tnacos.core.auth.enable.userAgentAuthWhite=${NACOS_AUTH_USER_AGENT_AUTH_WHITE_ENABLE:false}\n"
    +++ "\tnacos.core.auth.server.identity.key=${NACOS_AUTH_IDENTITY_KEY:serverIdentity}\n"
    +++ "\tnacos.core.auth.server.identity.value=${NACOS_AUTH_IDENTITY_VALUE:security}\n"
    +++ "\tserver.tomcat.accesslog.enabled=${TOMCAT_ACCESSLOG_ENABLED:false}\n"
    +++ "\tserver.tomcat.accesslog.pattern=%h %l %u %t \"%r\" %s %b %D\n"
    +++ "\t# default current work dir\n" +++ "\tserver.tomcat.basedir=\n"
    +++ "\t## spring security config\n" +++ "\t### turn off security\n"
    +++ "\tnacos.security.ignore.urls=${NACOS_SECURITY_IGNORE_URLS:/,/error,/**/*.css,/**/*.js,/**/*.html,/**/*.map,/**/*.svg,/**/*.png,/**/*.ico,/console-fe/public/**,/v1/auth/**,/v1/console/health/**,/actuator/**,/v1/console/server/**}\n"
    +++ "\t# metrics for elastic search\n" +++ "\tmanagement.metrics.export.elastic.enabled=false\n"
    +++ "\tmanagement.metrics.export.influx.enabled=false\n" +++ "\t\n"
    +++ "\tnacos.naming.distro.taskDispatchThreadCount=10\n"
    +++ "\tnacos.naming.distro.taskDispatchPeriod=200\n"
    +++ "\tnacos.naming.distro.batchSyncKeyCount=1000\n"
    +++ "\tnacos.naming.distro.initDataRatio=0.9\n"
    +++ "\tnacos.naming.distro.syncRetryDelay=5000\n" +++ "\tnacos.naming.data.warmup=true"

unfoldable pub build_default_config_map : RangeOrder → Nacos → ConfigMap
unfolding object_labels generate_name
build_default_config_map order nacos = record {
  meta =
      object_meta nacos (generate_name nacos +++ "-default") (object_labels order nacos)
        nacos.annotations;
  contents = ("application.properties", default_properties) ∷ [];
}
